-- ===== src/Scheduler/Wakes.antt =====
-- `accept_wake` of crates/kanbei-scheduler/src/lib.rs under the built-in policy: when a wake is
-- accepted, which triggers it takes, and what becomes of the others.
use mathlib.Core.List.{Perm}
use kanbei.Base.{
  ℕ, ◌≡◌, ◌≢◌, ◌↔◌, refl, ◌∙◌, sym, ap, ◌⊎◌, inl, inr, ◌++◌, Bool, true, not, none, some, List, [],
  ◌∷◌, arith, keep, keep-perm, Option-cases,
}
use kanbei.Base.Map.{insert}
use kanbei.Scheduler.Types.{
  Trigger, WakeAcceptance, WakeDecision, Denial, DenialReason, accepted, denied, timer,
}
use kanbei.Scheduler.Policy.{SchedulerPolicy, default_policy}
use kanbei.Scheduler.State.{Scheduler, no_usage}
use kanbei.Scheduler.Wake.{accept_wake, wake, best_batch, first_kind, referents, deny}
use kanbei.Scheduler.Queueing.{
  Class, in_class, class_kind, first_class, ranked, best-coalesce, first_class-cons, losers-class,
}

-- The state and the record of a wake for one class of the pending triggers.
abbrev pub started : Scheduler → Class → ℕ → ℕ → Scheduler
started s c run_id now = record s {
  pending = keep (λ t. not (in_class c t)) s.pending;
  active = some (record { id = run_id; kind = class_kind c; usage = no_usage now });
  runs = insert run_id (class_kind c) s.runs;
}

abbrev pub acceptance : Scheduler → Class → ℕ → WakeAcceptance
acceptance s c run_id = record {
  run_id = run_id;
  kind = class_kind c;
  trigger_kind = first_kind (keep (in_class c) s.pending);
  trigger_digests = referents (keep (in_class c) s.pending);
}

-- What an accepted wake does: the class that it takes, its record, the state after it, and the triggers.
abbrev pub Accepts : Scheduler → ℕ → ℕ → WakeAcceptance → Scheduler → Type 0
Accepts s run_id now a t =
    (c : Class) × (first_class s.pending ≡ some c)
    × (a ≡ acceptance s c run_id)
    × (t ≡ started s c run_id now)
    × Perm s.pending (keep (in_class c) s.pending ++ t.pending)

nil-cases : (ts : List Trigger) → (ts ≡ []) ⊎ (ts ≢ [])
nil-cases [] = inl refl
nil-cases (t ∷ ts) = inr (λ h. cc)

module _ (s : Scheduler) (run_id now : ℕ) (e : s.policy ≡ default_policy) where
  best-eq :
      best_batch s.policy.priority none (s.policy.coalesce s.pending)
      ≡ ranked s.pending (first_class s.pending)
  best-eq =
      ap (λ (p : SchedulerPolicy). best_batch p.priority none (p.coalesce s.pending)) e
      ∙ best-coalesce s.pending

  wake-some :
      (c : Class)
      → first_class s.pending ≡ some c
      → wake s run_id now ≡ (started s c run_id now, accepted (acceptance s c run_id))
  unfolding wake
  wake-some c h = ground (arith, best-eq, losers-class c s.pending)

  wake-cons : s.pending ≢ [] → (c : Class) × (first_class s.pending ≡ some c)
  wake-cons h = elim (Option-cases (first_class s.pending)) [
    | inr (c, p) ↦ (c, p)
    | inl p ↦ absurd (some_class s.pending h p)
  ]
    where
      some_class : (ts : List Trigger) → ts ≢ [] → first_class ts ≢ none
      some_class [] k = absurd (k refl)
      some_class (t ∷ ts) k = first_class-cons t ts

  wake-nil :
      s.pending ≡ []
      → wake s run_id now ≡ (record s { pending = [] }, deny timer DenialReason.policy_rejected)
  unfolding wake keep
  wake-nil h = ground (arith, best-eq)

  open_cases : s.pending ≢ [] → (a : WakeAcceptance) × ((wake s run_id now).1 ≡ accepted a)
  open_cases h =
      let (c, p) = wake-cons h in
      (acceptance s c run_id, ap (λ (r : Scheduler × WakeDecision). r.1) (wake-some c p))

  emptied : s.pending ≡ [] → record s { pending = [] } ≡ s
  emptied p = λ i. record s { pending = p' i }
    where
      p' : [] ≡ s.pending
      p' = sym p

  accept_wake-wake :
      (force : Bool)
      → (s.paused ≡ none) × (s.pending ≢ []) × ((s.active ≡ none) ⊎ (force ≡ true))
      → accept_wake s force run_id now ≡ wake s run_id now
  unfolding accept_wake
  accept_wake-wake force (unpaused, some_pending, free) = ground arith

  -- A wake is accepted exactly when no breaker has paused cognition, a trigger is pending, and no run
  -- is active or the wake is forced.
  pub accept_wake-accepts_iff :
      (force : Bool)
      → ((a : WakeAcceptance) × ((accept_wake s force run_id now).1 ≡ accepted a))
        ↔ ((s.paused ≡ none) × (s.pending ≢ []) × ((s.active ≡ none) ⊎ (force ≡ true)))
  unfolding accept_wake
  accept_wake-accepts_iff force = (
    λ (a, h). (ground arith, λ p. ground (arith, wake-nil p), ground arith),
    λ (unpaused, some_pending, free).
        let (a, p) = open_cases some_pending in (a, ground (arith, p)),
  )

  -- A denied wake changes nothing: the triggers stay pending, in their order.
  pub accept_wake-denied :
      (force : Bool) (d : Denial)
      → (accept_wake s force run_id now).1 ≡ denied d
      → (accept_wake s force run_id now).0 ≡ s
  unfolding accept_wake
  accept_wake-denied force d h = elim (nil-cases s.pending) [
    | inl p ↦ ground (arith, wake-nil p, emptied p)
    | inr p ↦ let (a, q) = open_cases p in ground (arith, q)
  ]

  -- An accepted wake takes all pending triggers of the first class that has one, of user messages,
  -- manual resumes, causal events and the rest; it starts a run of that class's kind with no usage,
  -- and the other triggers, in their order, stay pending: none is lost and none is doubled.
  pub accept_wake-accepted :
      (force : Bool) (a : WakeAcceptance)
      → (accept_wake s force run_id now).1 ≡ accepted a
      → Accepts s run_id now a (accept_wake s force run_id now).0
  accept_wake-accepted force a h =
      let free = (accept_wake-accepts_iff force).0 (a, h) in
      let (c, p) = wake-cons free.1 in
      let woken = accept_wake-wake force free ∙ wake-some c p in
      (
        c,
        p,
        ground (arith, h, woken),
        ap (λ (r : Scheduler × WakeDecision). r.0) woken,
        rw woken (keep-perm (in_class c) s.pending),
      )
