-- ===== src/Scheduler/Breakers.antt =====
-- The circuit breakers of crates/kanbei-scheduler/src/lib.rs over a whole history: the floors stay at
-- or above the kernel's, and no streak counter passes its floor, or wraps, unnoticed.
use kanbei.Base.{
  ℕ, ◌≤◌, ◌<◌, ◌≡◌, ◌⊎◌, Bool, Option, none, some, List, arith, u32_mod, add32, String,
}
use kanbei.Scheduler.Types.{
  BreakerFloors, BreakerTrip, BreakerCounter, default_floors, TerminalOutcome, RunUsage, Budgets,
}
use kanbei.Scheduler.State.{Scheduler, new, resume, observe, record_causal_event, set_budgets}
use kanbei.Scheduler.Wake.{accept_wake, wake}
use kanbei.Scheduler.Outcome.{
  finish, pause_on, record_outcome, record_outcome_inner, record_outcome_reason,
}
use kanbei.Scheduler.Usage.{record_usage, spawn_child}
use kanbei.Scheduler.Run.{
  Call, observes, wakes, ends, ends_with_reason, resumes, notes_causal_event, uses, spawns,
  sets_budgets, step, run, run_induction,
}

-- The floors that the kernel owns, from below, and the width of a `u32` from above.
pub record FloorsHold (f : BreakerFloors) : Type 0 where
  pub failed : default_floors.consecutive_failed ≤ f.consecutive_failed
  pub no_progress : default_floors.no_progress_without_causal ≤ f.no_progress_without_causal
  pub identical : default_floors.identical_action ≤ f.identical_action
  pub window : default_floors.spend_window_secs ≤ f.spend_window_secs
  pub tokens : default_floors.spend_tokens ≤ f.spend_tokens
  pub failed_word : f.consecutive_failed < u32_mod
  pub no_progress_word : f.no_progress_without_causal < u32_mod

abbrev pub paused_by : Option BreakerTrip → Option BreakerCounter
paused_by none = none
paused_by (some trip) = some trip.counter

-- A counter below its floor, or cognition paused by that very counter.
abbrev pub Guarded : BreakerCounter → Option BreakerTrip → ℕ → ℕ → Type 0
Guarded c paused n floor = (n < floor) ⊎ (paused_by paused ≡ some c)

pub record BreakersHold (s : Scheduler) : Type 0 where
  pub floors : FloorsHold s.floors
  pub failed :
      Guarded BreakerCounter.consecutive_failed s.paused s.consecutive_failed
        s.floors.consecutive_failed
  pub no_progress :
      Guarded BreakerCounter.no_progress_without_causal s.paused s.no_progress_run
        s.floors.no_progress_without_causal
  pub idle : (s.paused ≡ none) ⊎ (s.active ≡ none)

resume-BreakersHold : (s : Scheduler) (now : ℕ) → BreakersHold s → BreakersHold (resume s now).0
unfolding resume
resume-BreakersHold s now h = ground arith

wake-BreakersHold :
    (s : Scheduler) (force : Bool) (run_id now : ℕ)
    → BreakersHold s
    → BreakersHold (accept_wake s force run_id now).0
unfolding accept_wake wake
wake-BreakersHold s force run_id now h = ground arith

finish-BreakersHold :
    (s : Scheduler) (run_id : ℕ) (outcome : TerminalOutcome) (usage : RunUsage) (actions : List ℕ)
    (reason : Option String) (now : ℕ)
    → s.paused ≡ none
    → BreakersHold s
    → BreakersHold (finish s run_id outcome usage actions reason now).0
unfolding finish add32
finish-BreakersHold s run_id outcome usage actions reason now e h = ground arith

-- A child's end, and a refused one, touch none of what the invariant reads.
outcome-BreakersHold :
    (s : Scheduler) (run_id : ℕ) (outcome : TerminalOutcome) (usage : RunUsage) (actions : List ℕ)
    (reason : Option String) (now : ℕ)
    → BreakersHold s
    → BreakersHold (record_outcome_inner s run_id outcome usage actions reason now).0
unfolding record_outcome_inner
outcome-BreakersHold s run_id outcome usage actions reason now h =
    ground (arith, finish-BreakersHold s run_id outcome usage actions reason now)

reason-BreakersHold :
    (s : Scheduler) (run_id : ℕ) (outcome : TerminalOutcome) (usage : RunUsage) (actions : List ℕ)
    (reason : Option String) (now : ℕ)
    → BreakersHold s
    → BreakersHold (record_outcome_reason s run_id outcome usage actions reason now).0
unfolding record_outcome_reason
reason-BreakersHold s run_id outcome usage actions reason now h =
    ground (arith, outcome-BreakersHold s run_id outcome usage actions reason now)

usage-BreakersHold :
    (s : Scheduler) (run_id : ℕ) (usage : RunUsage)
    → BreakersHold s
    → BreakersHold (record_usage s run_id usage).0
unfolding record_usage
usage-BreakersHold s run_id usage h = ground arith

spawn-BreakersHold :
    (s : Scheduler) (parent : ℕ) (b : Budgets) (run_id now : ℕ)
    → BreakersHold s
    → BreakersHold (spawn_child s parent b run_id now).0
unfolding spawn_child
spawn-BreakersHold s parent b run_id now h = ground arith

pub step-BreakersHold : (s : Scheduler) (c : Call) → BreakersHold s → BreakersHold (step s c)
unfolding step observe record_causal_event set_budgets record_outcome
step-BreakersHold s (observes t) h = ground arith
step-BreakersHold s (wakes force run_id now) h = wake-BreakersHold s force run_id now h
step-BreakersHold s (ends run_id outcome usage actions now) h =
    outcome-BreakersHold s run_id outcome usage actions none now h
step-BreakersHold s (ends_with_reason run_id outcome usage actions reason now) h =
    reason-BreakersHold s run_id outcome usage actions reason now h
step-BreakersHold s (resumes now) h = resume-BreakersHold s now h
step-BreakersHold s (notes_causal_event seq) h = ground arith
step-BreakersHold s (uses run_id usage) h = usage-BreakersHold s run_id usage h
step-BreakersHold s (spawns parent b run_id now) h = spawn-BreakersHold s parent b run_id now h
step-BreakersHold s (sets_budgets b) h = ground arith

-- A session opens with a new scheduler, and restores the pause of its log, if there is one.
unfoldable pub opened : Budgets → BreakerFloors → Option BreakerTrip → ℕ → Scheduler
unfolding new pause_on
opened b f restored now = pause_on restored (new b f now)

opened-BreakersHold :
    (b : Budgets) (f : BreakerFloors) (restored : Option BreakerTrip) (now : ℕ)
    → f.consecutive_failed < u32_mod
    → f.no_progress_without_causal < u32_mod
    → BreakersHold (opened b f restored now)
unfolding opened
opened-BreakersHold b f restored now h k = ground arith

-- Whatever floors are configured and whatever calls follow, in a session opened with or without a
-- restored pause: the effective floors are at least the kernel's, a streak counter is below its floor
-- unless cognition is paused by that very counter, and while cognition is paused no run is active.
pub run-BreakersHold :
    (b : Budgets) (f : BreakerFloors) (restored : Option BreakerTrip) (now : ℕ) (cs : List Call)
    → f.consecutive_failed < u32_mod
    → f.no_progress_without_causal < u32_mod
    → BreakersHold (run (opened b f restored now) cs)
run-BreakersHold b f restored now cs h k =
    run_induction BreakersHold step-BreakersHold (opened b f restored now) cs
      (opened-BreakersHold b f restored now h k)
