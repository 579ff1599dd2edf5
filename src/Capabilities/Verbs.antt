-- ===== src/Capabilities/Verbs.antt =====
-- The verbs of a capability of crates/kanbei-capabilities/src/lib.rs as a set: sorting and deduplication
-- keep it, and attenuation only narrows it.
use kanbei.Base.{
  ℕ, ◌≡◌, refl, ◌∙◌, ap, not, ◌&&◌, ◌||◌, List, [], ◌∷◌, ◌==◌, contains, contains-keep, keep, arith,
}
use kanbei.Capabilities.Types.{Capability, insert_verb, sort_verbs, dedup, capability}
use kanbei.Capabilities.Check.{attenuate}

contains-insert_verb :
    (a v : ℕ) (vs : List ℕ) → contains a (insert_verb v vs) ≡ ((v == a) || contains a vs)
unfolding insert_verb
contains-insert_verb a v [] = refl
contains-insert_verb a v (w ∷ ws) = ground (arith, contains-insert_verb a v ws)

contains-sort_verbs : (a : ℕ) (vs : List ℕ) → contains a (sort_verbs vs) ≡ contains a vs
unfolding sort_verbs
contains-sort_verbs a [] = refl
contains-sort_verbs a (v ∷ vs) =
    contains-insert_verb a v (sort_verbs vs) ∙ ap (λ c. (v == a) || c) (contains-sort_verbs a vs)

contains-dedup : (a : ℕ) (vs : List ℕ) → contains a (dedup vs) ≡ contains a vs
unfolding dedup
contains-dedup a [] = refl
contains-dedup a (v ∷ []) = refl
contains-dedup a (v ∷ w ∷ ws) = ground (arith, contains-dedup a (w ∷ ws))

pub contains-capability :
    (a resource : ℕ) (vs : List ℕ) → contains a (capability resource vs).verbs ≡ contains a vs
unfolding capability
contains-capability a resource vs = contains-dedup a (sort_verbs vs) ∙ contains-sort_verbs a vs

-- Attenuation keeps the resource, and keeps of the verbs exactly those that are not dropped.
pub attenuate-narrows :
    (base : Capability) (dropped : List ℕ) (verb : ℕ)
    → ((attenuate base dropped).resource ≡ base.resource)
      × (contains verb (attenuate base dropped).verbs
          ≡ (not (contains verb dropped) && contains verb base.verbs))
unfolding attenuate capability
attenuate-narrows base dropped verb = (
  refl,
  contains-capability verb base.resource (keep (λ v. not (contains v dropped)) base.verbs)
      ∙ contains-keep verb (λ v. not (contains v dropped)) base.verbs,
)
