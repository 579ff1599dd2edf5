-- ===== src/Scopes/Publication.antt =====
-- What a publication of crates/kanbei-scopes/src/epoch.rs does as a whole, and what two of them do.
use kanbei.Base.{
  ℕ, ◌≡◌, ◌≢◌, refl, sym, ap, subst, ◌∙◌, ◌⊎◌, inl, inr, Bool, ◌==◌, ==_iff, List, add64,
  Bool-cases, arith,
}
use kanbei.Services.Types.{ServiceKey}
use kanbei.Scopes.Contrib.{Contribution, ScopeError, stale_epoch, ScopeResult, ok, err}
use kanbei.Scopes.State.{ContributionRegistry}
use kanbei.Scopes.Displaced.{OverridePlan, validate_planned}
use kanbei.Scopes.Apply.{apply_planned, next_state}
use kanbei.Scopes.Composition.{
  Composition, StagedSet, scope_of, reseed, commit_applied, stage_publish_planned, publish_planned,
}

pub Result-cases {ℓ} :
    {A : Type ℓ} (m : ScopeResult A) → ((a : A) × (m ≡ ok a)) ⊎ ((e : ScopeError) × (m ≡ err e))
Result-cases (ok a) = inl (a, refl)
Result-cases (err e) = inr (e, refl)

next_epoch : (n : ℕ) → add64 n 1 ≢ n
unfolding add64
next_epoch n h = omega (arith, h)

module _ (replay_relevant : ℕ) (before : ServiceKey → ServiceKey → Bool)
    (prior : Contribution → Contribution → Bool) (composition_digest : List Contribution → ℕ) where
  abbrev published :
      Composition
      → ContributionRegistry
      → StagedSet
      → OverridePlan
      → (Composition × ContributionRegistry) × ScopeResult {0} Unit
  published = publish_planned replay_relevant before prior composition_digest

  -- A publication that fails leaves composition and registry as they were; one that succeeds was staged against the
  -- current epoch and is valid, and puts the whole next state in place, by one epoch.
  publish_planned-atomic :
      (current : Composition) (r : ContributionRegistry) (staged : StagedSet) (plan : OverridePlan)
      → ((e : ScopeError) × (published current r staged plan ≡ ((current, r), err e)))
        ⊎ ((next : ContributionRegistry) × (staged.against_epoch ≡ current.epoch)
            × (validate_planned replay_relevant r staged.contributions plan ≡ ok tt)
            × (next_state before r (scope_of staged.contributions) staged.contributions plan
                ≡ ok next)
            × (published current r staged plan ≡ (
              (reseed replay_relevant before prior composition_digest current next, next),
              ok tt,
            )))
  unfolding publish_planned stage_publish_planned apply_planned commit_applied
  publish_planned-atomic current r staged plan =
      elim (Bool-cases (staged.against_epoch == current.epoch)) [
        | inr s ↦ inl (stale_epoch staged.against_epoch current.epoch, rw (s, publish_planned) refl)
        | inl s ↦
            elim (Result-cases (validate_planned replay_relevant r staged.contributions plan)) [
              | inr (e, v) ↦ inl (e, rw (s, publish_planned, v, stage_publish_planned) refl)
              | inl (u, v) ↦
                  elim (Result-cases (
                    next_state before r (scope_of staged.contributions) staged.contributions
                      plan)) [
                        | inr (e, n) ↦ inl (
                          e,
                          rw (s, v, n, publish_planned, stage_publish_planned, apply_planned) refl,
                        )
                        | inl (next, n) ↦ inr (
                          next,
                          (==_iff staged.against_epoch current.epoch).0 s,
                          v,
                          n,
                          rw (s, v, n, publish_planned, stage_publish_planned, apply_planned) refl,
                        )
                      ]
            ]
      ]

  publish_planned-stale :
      (current : Composition) (r : ContributionRegistry) (staged : StagedSet) (plan : OverridePlan)
      → staged.against_epoch ≢ current.epoch
      → published current r staged plan
        ≡ ((current, r), err (stale_epoch staged.against_epoch current.epoch))
  unfolding publish_planned
  publish_planned-stale current r staged plan h =
      elim (Bool-cases (staged.against_epoch == current.epoch)) [
        | inr s ↦ rw (s, publish_planned) refl
        | inl s ↦ absurd (h ((==_iff staged.against_epoch current.epoch).0 s))
      ]

  -- Of two sets that are staged against one epoch, one is published: the other is then stale, and changes nothing.
  pub publish_planned-once :
      (current : Composition) (r : ContributionRegistry) (first second : StagedSet)
      (plan other_plan : OverridePlan)
      → (published current r first plan).1 ≡ ok tt
      → second.against_epoch ≡ first.against_epoch
      → let after = (published current r first plan).0 in
        published after.0 after.1 second other_plan
        ≡ (after, err (stale_epoch second.against_epoch after.0.epoch))
  unfolding reseed
  publish_planned-once current r first second plan other_plan h same =
      elim (publish_planned-atomic current r first plan) [
        | inl (e, p) ↦ absurd (cc (ap (λ o. o.1) p, h))
        | inr (next, s, v, n, p) ↦
            subst
              (λ o.
                published o.0.0 o.0.1 second other_plan
                ≡ (o.0, err (stale_epoch second.against_epoch o.0.0.epoch)))
              (sym p)
              (publish_planned-stale
                (reseed replay_relevant before prior composition_digest current next) next second
                other_plan (λ t. next_epoch current.epoch (sym t ∙ same ∙ s)))
      ]
