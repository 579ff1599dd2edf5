-- ===== src/Scheduler/Outcomes.antt =====
-- The end of a run in crates/kanbei-scheduler/src/lib.rs, on every branch: a refused end, the end of a
-- child, the end of a run over its budget, and the trip that an end returns.
use kanbei.Base.{
  ℕ, ◌+◌, ◌≤◌, ◌≡◌, ◌≢◌, ◌↔◌, inl, inr, true, false, Option, none, some, List, arith, if◌then◌else◌,
  Option-cases, add32,
}
use kanbei.Base.Map.{lookup, remove, lookup-remove}
use kanbei.Scheduler.Types.{
  TerminalOutcome, blocked, failed, FailureKind, RunUsage, BreakerTrip, BreakerCounter, ok, err,
  not_active_run, ChildRun,
}
use kanbei.Scheduler.State.{Scheduler, ActiveRun}
use kanbei.Scheduler.Outcome.{
  budget_ok, finish, window_trip, settle, close_active, record_outcome, record_outcome_inner,
  final_reason,
}
use kanbei.Scheduler.Usage.{current_usage}
use kanbei.Scheduler.Breakers.{BreakersHold, paused_by}

-- The end of a run is refused exactly when the identity is that of no child and not that of the active
-- run; then the error names it and the state stays.
pub record_outcome-err_iff :
    (s : Scheduler) (id : ℕ) (outcome : TerminalOutcome) (usage : RunUsage) (actions : List ℕ)
    (now : ℕ)
    → (record_outcome s id outcome usage actions now ≡ (s, err (not_active_run id)))
      ↔ ((lookup id s.children ≡ none) × ((r : ActiveRun) → s.active ≡ some r → r.id ≢ id))
unfolding record_outcome record_outcome_inner finish
record_outcome-err_iff s id outcome usage actions now = (
  λ h. (ground arith, λ r e. ground arith),
  λ (h, k). elim (Option-cases s.active) [
    | inl e ↦ ground arith
    | inr (r, e) ↦ ground (arith, k r e)
  ],
)

-- The end of a child drops it and keeps its usage for the next reading; it returns no trip and changes
-- neither a counter, nor the pause, nor the active run, whatever its outcome and its actions.
pub record_outcome-child :
    (s : Scheduler) (id : ℕ) (c : ChildRun) (outcome : TerminalOutcome) (usage : RunUsage)
    (actions : List ℕ) (now : ℕ)
    → lookup id s.children ≡ some c
    → let t = (record_outcome s id outcome usage actions now).0 in
      (t ≡ record s { children = remove id s.children; last_child_usage = some (id, c.usage) })
      × (lookup id t.children ≡ none)
      × (current_usage t id ≡ c.usage)
unfolding record_outcome record_outcome_inner current_usage
record_outcome-child s id c outcome usage actions now h = (
  ground arith,
  ground (arith, lookup-remove id id s.children),
  ground (arith, lookup-remove id id s.children),
)

-- A run that used more than its budget ends blocked, whatever outcome was reported, with the budget as
-- its reason, and neither streak counts it.
pub record_outcome-over_budget :
    (s : Scheduler) (r : ActiveRun) (outcome : TerminalOutcome) (usage : RunUsage)
    (actions : List ℕ) (now : ℕ)
    → lookup r.id s.children ≡ none
    → s.active ≡ some r
    → budget_ok s.budgets usage ≡ false
    → (trip : Option BreakerTrip) × ((record_outcome s r.id outcome usage actions now).1
        ≡ ok (
          record {
            run_id = r.id;
            outcome = blocked;
            reason = some "run budget exhausted (session budgets)";
          },
          trip,
        ))
      × ((record_outcome s r.id outcome usage actions now).0.consecutive_failed
          ≡ s.consecutive_failed)
      × ((record_outcome s r.id outcome usage actions now).0.no_progress_run ≡ s.no_progress_run)
unfolding record_outcome record_outcome_inner finish
record_outcome-over_budget s r outcome usage actions now h e b = (
  window_trip (settle (close_active s r.id outcome) usage actions now),
  ground arith,
  ground arith,
  ground arith,
)

-- The end of the active run frees the scheduler: no run is active, the run is no longer live, and what
-- was not paused before is paused after exactly by the trip that is returned.
pub record_outcome-ends :
    (s : Scheduler) (r : ActiveRun) (outcome : TerminalOutcome) (usage : RunUsage)
    (actions : List ℕ) (now : ℕ)
    → lookup r.id s.children ≡ none
    → s.active ≡ some r
    → s.paused ≡ none
    → let t = (record_outcome s r.id outcome usage actions now).0 in
      ((record_outcome s r.id outcome usage actions now).1
        ≡ ok (
          record {
            run_id = r.id;
            outcome = if budget_ok s.budgets usage then outcome else blocked;
            reason = final_reason s usage none;
          },
          t.paused,
        ))
      × (t.active ≡ none)
      × (lookup r.id t.runs ≡ none)
unfolding record_outcome record_outcome_inner finish
record_outcome-ends s r outcome usage actions now h e p =
    (ground arith, ground arith, ground (arith, lookup-remove r.id r.id s.runs))

-- Within the budget, a failure trips the failure breaker exactly when it is the one that reaches the
-- floor; otherwise the streak is one longer.
pub record_outcome-failed :
    (s : Scheduler) (r : ActiveRun) (kind : FailureKind) (usage : RunUsage) (actions : List ℕ)
    (now : ℕ)
    → BreakersHold s
    → lookup r.id s.children ≡ none
    → s.active ≡ some r
    → budget_ok s.budgets usage ≡ true
    → let t = (record_outcome s r.id (failed kind) usage actions now).0 in
      (t.consecutive_failed ≡ s.consecutive_failed + 1)
      × ((paused_by t.paused ≡ some BreakerCounter.consecutive_failed)
          ↔ (s.floors.consecutive_failed ≤ s.consecutive_failed + 1))
unfolding record_outcome record_outcome_inner finish add32
record_outcome-failed s r kind usage actions now h e a b =
    (ground arith, (λ k. ground arith, λ k. ground arith))
