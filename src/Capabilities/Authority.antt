-- ===== src/Capabilities/Authority.antt =====
-- What a successful decision of the broker of crates/kanbei-capabilities/src/lib.rs rests on.
use mathlib.Core.List.{append_assoc, append-nil}
use kanbei.Base.{
  ℕ, ◌≡◌, inl, inr, Bool, true, false, ◌||◌, ◌++◌, none, some, List, [], ◌∷◌, contains, any, All,
  arith, Option-cases,
}
use kanbei.Capabilities.Types.{
  Principal, Capability, Grant, PolicyTemplate, Effective, Broker, ok, Result-cases, capability,
}
use kanbei.Capabilities.Policy.{denies, allows, gates, policy_version}
use kanbei.Capabilities.Grants.{is_expired, find_grant, spent_of, validate}
use kanbei.Capabilities.Check.{
  remaining, is_zero, decrement, first_denied, cover, spend, check_verbs, check_grant, check,
}

-- A verb that a grant may use on a resource.
abbrev pub IsPermitted : List PolicyTemplate → ℕ → List ℕ → ℕ → Type 0
IsPermitted ts resource granted v =
    (contains v granted ≡ true) × (denies ts resource v ≡ false) × (allows ts resource v ≡ true)

pub first_denied-none :
    (ts : List PolicyTemplate) (resource : ℕ) (vs : List ℕ)
    → first_denied ts resource vs ≡ none
    → All (λ v. denies ts resource v ≡ false) vs
unfolding first_denied
first_denied-none ts resource [] h = tt
first_denied-none ts resource (v ∷ vs) h = ground (arith, first_denied-none ts resource vs)

cover-ok :
    (ts : List PolicyTemplate) (p : Principal) (resource : ℕ) (granted vs out : List ℕ)
    (gated : Bool) (r : List ℕ × Bool)
    → cover ts p resource granted vs out gated ≡ ok r
    → All (λ v. (contains v granted ≡ true) × (allows ts resource v ≡ true)) vs
      × (r.0 ≡ out ++ vs)
      × (r.1 ≡ (gated || any (gates ts resource) vs))
unfolding cover any
cover-ok ts p resource granted [] out gated r h = ground (arith, append-nil out)
cover-ok ts p resource granted (v ∷ vs) out gated r h = ground (
  arith,
  cover-ok ts p resource granted vs (out ++ v ∷ []) (gated || gates ts resource v) r,
  append_assoc out (v ∷ []) vs,
)

-- What the broker finds in the state and in the request when it says yes, and what it answers.
pub record Granted (derive : Grant → ℕ) (b : Broker) (p : Principal) (want : Capability)
    (policy now : ℕ) (e : Effective) : Type 0 where
  pub grant : Grant
  pub found : find_grant p want.resource b.grants ≡ some grant
  pub valid : validate derive grant ≡ true
  pub fresh : is_expired grant.expiry now ≡ false
  pub funded : is_zero (remaining grant.budget (spent_of b grant)) ≡ false
  pub current : policy ≡ policy_version b.templates
  pub permitted : All (IsPermitted b.templates want.resource grant.capability.verbs) want.verbs
  pub cap : e.cap ≡ capability want.resource want.verbs
  pub left : e.remaining_budget ≡ decrement (remaining grant.budget (spent_of b grant))
  pub gated : e.requires_approval ≡ any (gates b.templates want.resource) want.verbs
  pub after : (check derive b p want policy now).0 ≡ spend grant b

All-IsPermitted :
    (ts : List PolicyTemplate) (resource : ℕ) (granted vs : List ℕ)
    → All (λ v. denies ts resource v ≡ false) vs
    → All (λ v. (contains v granted ≡ true) × (allows ts resource v ≡ true)) vs
    → All (IsPermitted ts resource granted) vs
All-IsPermitted ts resource granted [] h k = tt
All-IsPermitted ts resource granted (v ∷ vs) h k =
    ((k.0.0, h.0, k.0.1), All-IsPermitted ts resource granted vs h.1 k.1)

module _ (derive : Grant → ℕ) (b : Broker) (p : Principal) (want : Capability)
    (policy now : ℕ) where
  check_verbs-ok :
      (g : Grant) (e : Effective)
      → (check_verbs b p want g).1 ≡ ok e
      → All (IsPermitted b.templates want.resource g.capability.verbs) want.verbs
        × (e.cap ≡ capability want.resource want.verbs)
        × (e.remaining_budget ≡ decrement (remaining g.budget (spent_of b g)))
        × (e.requires_approval ≡ any (gates b.templates want.resource) want.verbs)
        × ((check_verbs b p want g).0 ≡ spend g b)
  unfolding check_verbs
  check_verbs-ok g e h = elim (Option-cases (first_denied b.templates want.resource want.verbs)) [
    | inl none_denied ↦
        elim (Result-cases
          (cover b.templates p want.resource g.capability.verbs want.verbs [] false)) [
            | inl (r, covered) ↦
                let c =
                  cover-ok b.templates p want.resource g.capability.verbs want.verbs [] false r
                    covered in
                (
                  All-IsPermitted b.templates want.resource g.capability.verbs want.verbs
                      (first_denied-none b.templates want.resource want.verbs none_denied) c.0,
                  ground (arith, h, none_denied, covered, c.1),
                  ground (arith, h, none_denied, covered),
                  ground (arith, h, none_denied, covered, c.2),
                  ground (arith, h, none_denied, covered),
                )
            | inr (x, covered) ↦ absurd (ground (arith, h, none_denied, covered))
          ]
    | inr (v, denied) ↦ absurd (ground (arith, h, denied))
  ]

  -- The broker says yes only to a caller whose first matching grant is valid, unexpired and within its
  -- budget, under the policy version that the caller names, and where each requested verb is granted,
  -- allowed by some template and denied by none; the answer names just these verbs, and says whether
  -- some verb needs approval.
  pub check-Granted :
      (e : Effective)
      → (check derive b p want policy now).1 ≡ ok e
      → Granted derive b p want policy now e
  unfolding check check_grant
  check-Granted e h = elim (Option-cases (find_grant p want.resource b.grants)) [
    | inl missing ↦ absurd (ground (arith, h, missing))
    | inr (g, found) ↦
        let c = check_verbs-ok g e (ground (arith, h, found)) in
        record {
          grant = g;
          found = found;
          valid = ground (arith, h, found);
          fresh = ground (arith, h, found);
          funded = ground (arith, h, found);
          current = ground (arith, h, found);
          permitted = c.0;
          cap = c.1;
          left = c.2;
          gated = c.3;
          after = ground (arith, h, found, c.4);
        }
  ]
