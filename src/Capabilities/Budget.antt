-- ===== src/Capabilities/Budget.antt =====
-- Call budgets of crates/kanbei-capabilities/src/lib.rs over any sequence of checks.
use kanbei.Base.{
  ℕ, ◌+◌, ◌≡◌, ◌≤◌, refl, sym, ap, subst, inl, inr, false, ◌&&◌, none, some, List, [], ◌∷◌, ◌==◌,
  All, arith, if◌then◌else◌, Option-cases, is_some,
}
use kanbei.Base.Map.{lookup, lookup-insert}
use kanbei.Capabilities.Types.{Principal, Capability, Grant, Broker, Result-cases, is_ok}
use kanbei.Capabilities.Grants.{find_grant, spent_of}
use kanbei.Capabilities.Check.{
  remaining, is_zero, spend, check_verbs, check_grant, check, first_denied, cover,
}
use kanbei.Capabilities.Authority.{check-Granted}

pub record Request : Type 0 where
  pub principal : Principal
  pub want : Capability
  pub policy : ℕ
  pub now : ℕ

-- The count under a digest.
unfoldable pub count_at : ℕ → Broker → ℕ
unfolding lookup
count_at d b = elim (lookup d b.spent) [ none ↦ 0 | some n ↦ n ]

find_grant-All :
    (P : Grant → Type 0) (p : Principal) (resource : ℕ) (gs : List Grant) (g : Grant)
    → All P gs
    → find_grant p resource gs ≡ some g
    → P g
unfolding find_grant
find_grant-All P p resource [] g h e = absurd (cc)
find_grant-All P p resource (x ∷ gs) g h e =
    ground (arith, h.0, find_grant-All P p resource gs g h.1)

module _ (derive : Grant → ℕ) where
  -- Does a request succeed under a grant of digest `d`? Then it counts 1.
  unfoldable pub used_now : ℕ → Request → Broker → ℕ
  unfolding check find_grant is_ok
  used_now d r b = elim (find_grant r.principal r.want.resource b.grants) [
    | none ↦ 0
    | some g ↦
        if is_ok (check derive b r.principal r.want r.policy r.now).1 && (g.grant_digest == d)
        then 1
        else 0
  ]

  -- The requests of a sequence that succeed under such a grant.
  unfoldable pub uses : ℕ → List Request → Broker → ℕ
  unfolding check used_now
  uses d [] b = 0
  uses d (r ∷ rs) b =
      used_now d r b + uses d rs (check derive b r.principal r.want r.policy r.now).0

  check_verbs-err :
      (b : Broker) (p : Principal) (want : Capability) (g : Grant)
      → is_ok (check_verbs b p want g).1 ≡ false
      → (check_verbs b p want g).0 ≡ b
  unfolding check_verbs is_ok
  check_verbs-err b p want g h =
      elim (Option-cases (first_denied b.templates want.resource want.verbs)) [
        | inl none_denied ↦
            elim (Result-cases
              (cover b.templates p want.resource g.capability.verbs want.verbs [] false)) [
                | inl (r, covered) ↦ absurd (ground (arith, h, none_denied, covered))
                | inr (x, covered) ↦ ground (arith, none_denied, covered)
              ]
        | inr (v, denied) ↦ ground (arith, denied)
      ]

  -- A refused check leaves the broker as it was.
  pub check-refused :
      (b : Broker) (p : Principal) (want : Capability) (policy now : ℕ)
      → is_ok (check derive b p want policy now).1 ≡ false
      → (check derive b p want policy now).0 ≡ b
  unfolding check check_grant is_ok
  check-refused b p want policy now h = elim (Option-cases (find_grant p want.resource b.grants)) [
    | inl missing ↦ ground (arith, missing)
    | inr (g, found) ↦ ground (arith, h, found, check_verbs-err b p want g)
  ]

  count-spend :
      (d : ℕ) (g : Grant) (b : Broker)
      → count_at d (spend g b) ≡ (
          if is_some g.budget && (g.grant_digest == d)
          then count_at g.grant_digest b + 1
          else count_at d b)
  unfolding count_at spend spent_of
  count-spend d g b = ground (arith, lookup-insert g.grant_digest d (spent_of b g + 1) b.spent)

  spent-count : (b : Broker) (g : Grant) → spent_of b g ≡ count_at g.grant_digest b
  unfolding spent_of count_at
  spent-count b g = refl

  spend-count :
      (d n : ℕ) (g : Grant) (b : Broker)
      → (g.grant_digest ≡ d → g.budget ≡ some n)
      → is_zero (remaining g.budget (spent_of b g)) ≡ false
      → count_at d b ≤ n
      → ((if g.grant_digest == d then 1 else 0) + count_at d b ≡ count_at d (spend g b))
        × (count_at d (spend g b) ≤ n)
        × ((spend g b).grants ≡ b.grants)
  unfolding is_zero remaining spend
  spend-count d n g b h funded le = (
    ground (arith, count-spend d g b, h),
    ground (arith, count-spend d g b, h, funded, spent-count b g),
    ground arith,
  )

  step-count :
      (d n : ℕ) (r : Request) (b : Broker)
      → All (λ g. g.grant_digest ≡ d → g.budget ≡ some n) b.grants
      → count_at d b ≤ n
      → let after = (check derive b r.principal r.want r.policy r.now).0 in
        (used_now d r b + count_at d b ≡ count_at d after)
        × (count_at d after ≤ n)
        × (after.grants ≡ b.grants)
  unfolding used_now is_ok
  step-count d n r b h le =
      elim (Result-cases (check derive b r.principal r.want r.policy r.now).1) [
        | inl (e, said) ↦
            let k = check-Granted derive b r.principal r.want r.policy r.now e said in
            let budget =
              find_grant-All (λ g. g.grant_digest ≡ d → g.budget ≡ some n) r.principal
                r.want.resource b.grants k.grant h k.found in
            let spent = spend-count d n k.grant b budget k.funded le in
            rw k.after (ground (arith, said, k.found, spent), spent.1, spent.2)
        | inr (x, refused) ↦
            rw (check-refused b r.principal r.want r.policy r.now (ap is_ok refused))
              (ground (arith, refused), le, refl)
      ]

  -- Where a digest has the budget `n`, no sequence of checks succeeds more often under it than the
  -- budget has left.
  pub uses-bounded :
      (d n : ℕ) (rs : List Request) (b : Broker)
      → All (λ g. g.grant_digest ≡ d → g.budget ≡ some n) b.grants
      → count_at d b ≤ n
      → uses d rs b + count_at d b ≤ n
  unfolding uses
  uses-bounded d n [] b h le = omega (arith, le)
  uses-bounded d n (r ∷ rs) b h le =
      let step = step-count d n r b h le in
      let after = (check derive b r.principal r.want r.policy r.now).0 in
      omega (
        arith,
        step.0,
        uses-bounded d n rs after
            (subst (λ gs. All (λ g. g.grant_digest ≡ d → g.budget ≡ some n) gs) (sym step.2) h)
            step.1,
      )
