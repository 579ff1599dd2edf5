-- ===== src/Capabilities/Monotone.antt =====
-- Policy growth in crates/kanbei-capabilities/src/lib.rs: a monotonic template is never weakened.
use kanbei.Base.{
  ℕ, ◌≡◌, refl, inl, inr, true, false, ◌&&◌, ◌||◌, List, [], ◌∷◌, ◌==◌, contains, any, All, arith,
}
use kanbei.Capabilities.Types.{Capability, PolicyTemplate, Broker, Result-cases, ok, same_class}
use kanbei.Capabilities.Policy.{
  lists, denies, subset, keeps, template_grows, put_template, add_template,
}

subset-contains :
    (a : ℕ) (vs ws : List ℕ) → subset vs ws ≡ true → contains a vs ≡ true → contains a ws ≡ true
unfolding subset
subset-contains a [] ws h k = absurd (cc)
subset-contains a (v ∷ vs) ws h k = ground (arith, subset-contains a vs ws)

lists-grown :
    (c : Capability) (ds : List Capability) (resource verb : ℕ)
    → any (λ d. (d.resource == c.resource) && subset c.verbs d.verbs) ds ≡ true
    → ((c.resource == resource) && contains verb c.verbs) ≡ true
    → lists ds resource verb ≡ true
unfolding lists any
lists-grown c [] resource verb h k = absurd (cc)
lists-grown c (d ∷ ds) resource verb h k =
    ground (arith, subset-contains verb c.verbs d.verbs, lists-grown c ds resource verb)

lists-keeps :
    (cs ds : List Capability) (resource verb : ℕ)
    → keeps cs ds ≡ true
    → lists cs resource verb ≡ true
    → lists ds resource verb ≡ true
unfolding lists keeps any
lists-keeps [] ds resource verb h k = absurd (cc)
lists-keeps (c ∷ cs) ds resource verb h k =
    ground (arith, lists-grown c ds resource verb, lists-keeps cs ds resource verb)

denies-nil : (resource verb : ℕ) → denies [] resource verb ≡ false
unfolding denies any
denies-nil resource verb = refl

denies-cons :
    (t : PolicyTemplate) (ts : List PolicyTemplate) (resource verb : ℕ)
    → denies (t ∷ ts) resource verb ≡ (lists t.deny resource verb || denies ts resource verb)
unfolding denies any
denies-cons t ts resource verb = refl

put_template-denies :
    (t : PolicyTemplate) (ts us : List PolicyTemplate) (resource verb : ℕ)
    → All (λ e. same_class e.trust_class t.trust_class ≡ true → e.monotonic ≡ true) ts
    → put_template t ts ≡ ok us
    → denies ts resource verb ≡ true
    → denies us resource verb ≡ true
unfolding put_template template_grows
put_template-denies t [] us resource verb m h k =
    absurd (ground (arith, k, denies-nil resource verb))
put_template-denies t (e ∷ ts) us resource verb m h k = elim (Result-cases (put_template t ts)) [
  | inl (rest, same) ↦ ground (
    arith,
    m.0,
    lists-keeps e.deny t.deny resource verb,
    put_template-denies t ts rest resource verb m.1 same,
    denies-cons e ts resource verb,
    denies-cons t ts resource verb,
    denies-cons e rest resource verb,
  )
  | inr (x, same) ↦ ground (
    arith,
    m.0,
    lists-keeps e.deny t.deny resource verb,
    denies-cons e ts resource verb,
    denies-cons t ts resource verb,
  )
]

-- A template that is added where the template of its class is a monotonic guard takes back no denial:
-- whatever some template denied before is denied after.
pub add_template-denies :
    (t : PolicyTemplate) (b : Broker) (resource verb : ℕ)
    → All (λ e. same_class e.trust_class t.trust_class ≡ true → e.monotonic ≡ true) b.templates
    → (add_template t b).1 ≡ ok tt
    → denies b.templates resource verb ≡ true
    → denies (add_template t b).0.templates resource verb ≡ true
unfolding add_template
add_template-denies t b resource verb m h k = elim (Result-cases (put_template t b.templates)) [
  | inl (us, e) ↦ rw (e, add_template) (put_template-denies t b.templates us resource verb m e k)
  | inr (x, e) ↦ absurd (ground (arith, h, e))
]
