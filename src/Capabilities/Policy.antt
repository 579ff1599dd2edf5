-- ===== src/Capabilities/Policy.antt =====
-- Policy templates of crates/kanbei-capabilities/src/lib.rs: the three lists, their tests, and
-- `add_template`.
use kanbei.Base.{ℕ, max, Bool, true, not, ◌&&◌, List, [], ◌∷◌, if◌then◌else◌, ◌==◌, any, contains}
use kanbei.Capabilities.Types.{
  Capability, PolicyTemplate, Broker, BrokerResult, non_monotonic_policy, ok, err, same_class,
}

-- The module's `contains`.
unfoldable pub lists : List Capability → ℕ → ℕ → Bool
unfolding any
lists caps resource verb = any (λ c. (c.resource == resource) && contains verb c.verbs) caps

unfoldable pub denies : List PolicyTemplate → ℕ → ℕ → Bool
unfolding any lists
denies ts resource verb = any (λ t. lists t.deny resource verb) ts

unfoldable pub allows : List PolicyTemplate → ℕ → ℕ → Bool
unfolding any lists
allows ts resource verb = any (λ t. lists t.allow resource verb) ts

unfoldable pub gates : List PolicyTemplate → ℕ → ℕ → Bool
unfolding any lists
gates ts resource verb = any (λ t. lists t.require_approval resource verb) ts

-- `Iterator::all` on verbs.
unfoldable pub subset : List ℕ → List ℕ → Bool
subset [] ws = true
subset (v ∷ vs) ws = contains v ws && subset vs ws

-- `keeps` of `template_grows`.
unfoldable pub keeps : List Capability → List Capability → Bool
unfolding any subset
keeps [] new_caps = true
keeps (c ∷ cs) new_caps =
    any (λ d. (d.resource == c.resource) && subset c.verbs d.verbs) new_caps && keeps cs new_caps

unfoldable pub template_grows : PolicyTemplate → PolicyTemplate → Bool
unfolding keeps
template_grows new old =
    keeps old.allow new.allow
    && keeps old.deny new.deny
    && keeps old.require_approval new.require_approval

-- The position of the class, and what `add_template` does there.
unfoldable pub put_template :
    PolicyTemplate → List PolicyTemplate → BrokerResult (List PolicyTemplate)
unfolding template_grows same_class
put_template t [] = ok (t ∷ [])
put_template t (e ∷ ts) =
    let rest = put_template t ts in
    if same_class e.trust_class t.trust_class
    then (if e.monotonic && not (template_grows t e)
        then err (non_monotonic_policy t.trust_class)
        else ok (t ∷ ts))
    else elim rest [ ok us ↦ ok (e ∷ us) | err x ↦ err x ]

unfoldable pub add_template : PolicyTemplate → Broker → Broker × BrokerResult {0} Unit
unfolding put_template
add_template t b = elim (put_template t b.templates) [
  | ok ts ↦ (record b { templates = ts }, ok tt)
  | err e ↦ (b, err e)
]

-- The highest version of a template, 0 where there is none.
unfoldable pub policy_version : List PolicyTemplate → ℕ
policy_version [] = 0
policy_version (t ∷ ts) = max t.version (policy_version ts)
