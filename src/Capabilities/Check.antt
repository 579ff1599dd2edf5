-- ===== src/Capabilities/Check.antt =====
-- The decisions of the broker of crates/kanbei-capabilities/src/lib.rs: `check`, `attenuate`,
-- `require_approval` and `recheck`. The clock is an argument of the operations that read it.
use kanbei.Base.{
  ℕ, ◌+◌, ◌-◌, Bool, false, not, ◌||◌, ◌++◌, Option, none, some, List, [], ◌∷◌, if◌then◌else◌, ◌==◌,
  leb, is_some, keep, any, contains,
}
use kanbei.Base.Map.{insert}
use kanbei.Capabilities.Types.{
  Principal, Capability, Grant, GrantScope, ApprovalIntent, PolicyTemplate, Effective, Broker,
  BrokerResult, ok, err, no_grant, denied, expired, budget_exhausted, policy_version_mismatch,
  stale_grant, not_approval_gated, stale_intent, grants_version_mismatch, capability,
}
use kanbei.Capabilities.Policy.{denies, allows, gates, policy_version}
use kanbei.Capabilities.Grants.{is_expired, find_grant, spent_of, grants_version, validate}

-- `budget.map(|b| b.saturating_sub(spent))`.
unfoldable pub remaining : Option ℕ → ℕ → Option ℕ
remaining none spent = none
remaining (some b) spent = some (b - spent)

unfoldable pub is_zero : Option ℕ → Bool
is_zero none = false
is_zero (some n) = n == 0

unfoldable pub decrement : Option ℕ → Option ℕ
decrement none = none
decrement (some n) = some (n - 1)

-- The first loop of `check`: the first requested verb that a template denies.
unfoldable pub first_denied : List PolicyTemplate → ℕ → List ℕ → Option ℕ
unfolding denies
first_denied ts resource [] = none
first_denied ts resource (v ∷ vs) =
    let rest = first_denied ts resource vs in if denies ts resource v then some v else rest

-- The second loop of `check`.
unfoldable pub cover :
    List PolicyTemplate
    → Principal
    → ℕ
    → List ℕ
    → List ℕ
    → List ℕ
    → Bool
    → BrokerResult (List ℕ × Bool)
unfolding allows gates
cover ts p resource granted [] out gated = ok (out, gated)
cover ts p resource granted (v ∷ vs) out gated =
    let rest = cover ts p resource granted vs (out ++ v ∷ []) (gated || gates ts resource v) in
    if not (contains v granted)
    then err (no_grant resource p)
    else if not (allows ts resource v)
    then err (denied resource v p)
    else rest

-- The end of `check`; the count stays under the budget, so that it does not wrap.
unfoldable pub spend : Grant → Broker → Broker
unfolding insert spent_of
spend g b =
    if is_some g.budget
    then record b { spent = insert g.grant_digest (spent_of b g + 1) b.spent }
    else b

unfoldable pub check_verbs :
    Broker → Principal → Capability → Grant → Broker × BrokerResult Effective
unfolding first_denied cover spend capability remaining decrement
check_verbs b p want g = elim (first_denied b.templates want.resource want.verbs) [
  | some v ↦ (b, err (denied want.resource v p))
  | none ↦ elim (cover b.templates p want.resource g.capability.verbs want.verbs [] false) [
    | err e ↦ (b, err e)
    | ok r ↦ (
      spend g b,
      ok (record {
        cap = capability want.resource r.0;
        remaining_budget = decrement (remaining g.budget (spent_of b g));
        requires_approval = r.1;
      }),
    )
  ]
]

module _ (derive : Grant → ℕ) where
  unfoldable pub check_grant :
      Broker → Principal → Capability → ℕ → ℕ → Grant → Broker × BrokerResult Effective
  unfolding validate is_expired is_zero remaining spent_of policy_version check_verbs
  check_grant b p want policy now g =
      if not (validate derive g)
      then (b, err (stale_grant g.grant_digest))
      else if is_expired g.expiry now
      then (b, err (expired want.resource p))
      else if is_zero (remaining g.budget (spent_of b g))
      then (b, err (budget_exhausted want.resource p))
      else if not (policy == policy_version b.templates)
      then (b, err (policy_version_mismatch policy (policy_version b.templates)))
      else check_verbs b p want g

  unfoldable pub check : Broker → Principal → Capability → ℕ → ℕ → Broker × BrokerResult Effective
  unfolding find_grant check_grant
  check b p want policy now = elim (find_grant p want.resource b.grants) [
    | none ↦ (b, err (no_grant want.resource p))
    | some g ↦ check_grant b p want policy now g
  ]

-- `attenuate`.
unfoldable pub attenuate : Capability → List ℕ → Capability
unfolding keep capability
attenuate base drop_verbs =
    capability base.resource (keep (λ v. not (contains v drop_verbs)) base.verbs)

-- `empty_args` is the canonical form of the empty object.
abbrev pub empty_args : ℕ
empty_args = 0

-- `want.verbs.first()`, or the empty text.
unfoldable pub first_verb : List ℕ → ℕ
first_verb [] = 0
first_verb (v ∷ vs) = v

unfoldable pub over_budget : Option ℕ → ℕ → Bool
over_budget none spent = false
over_budget (some b) spent = leb b spent

module _ (derive : Grant → ℕ) (derive_intent : ApprovalIntent → ℕ) where
  unfoldable pub require_approval : Broker → Principal → Capability → BrokerResult ApprovalIntent
  unfolding any gates first_verb
  require_approval b p want =
      let blank : ApprovalIntent = record {
        digest = 0;
        principal = p;
        module_generation = p.generation;
        action = want.resource;
        args = empty_args;
        cwd_env_fingerprint = none;
        scope = GrantScope.run_scope;
        expiry = none;
      } in
      if any (λ v. gates b.templates want.resource v) want.verbs
      then ok (record blank { digest = derive_intent blank })
      else err (not_approval_gated want.resource (first_verb want.verbs))

  unfoldable pub recheck_grant : Broker → ApprovalIntent → ℕ → Grant → BrokerResult {0} Unit
  unfolding validate is_expired over_budget spent_of first_denied
  recheck_grant b intent later g =
      if not (validate derive g)
      then err (stale_grant g.grant_digest)
      else if is_expired g.expiry later
      then err (expired intent.action intent.principal)
      else if over_budget g.budget (spent_of b g)
      then err (budget_exhausted intent.action intent.principal)
      else elim (first_denied b.templates intent.action g.capability.verbs) [
        | some v ↦ err (denied intent.action v intent.principal)
        | none ↦ ok tt
      ]

  -- `recheck`; the clock is read for the intent and again for the grant.
  unfoldable pub recheck : Broker → ApprovalIntent → ℕ → ℕ → ℕ → ℕ → BrokerResult {0} Unit
  unfolding is_expired policy_version grants_version find_grant recheck_grant
  recheck b intent version policy now later =
      if not (derive_intent intent == intent.digest)
      then err (stale_intent intent.digest)
      else if is_expired intent.expiry now
      then err (expired intent.action intent.principal)
      else if not (policy == policy_version b.templates)
      then err (policy_version_mismatch policy (policy_version b.templates))
      else if not (version == grants_version b)
      then err (grants_version_mismatch version (grants_version b))
      else elim (find_grant intent.principal intent.action b.grants) [
        | none ↦ err (no_grant intent.action intent.principal)
        | some g ↦ recheck_grant b intent later g
      ]
