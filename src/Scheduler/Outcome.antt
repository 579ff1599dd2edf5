-- ===== src/Scheduler/Outcome.antt =====
-- `Scheduler::record_outcome` of crates/kanbei-scheduler/src/lib.rs: the end of a run and the circuit
-- breakers.
use kanbei.Base.{
  ℕ, ◌++◌, ◌&&◌, ◌==◌, Bool, true, Option, none, some, List, [], ◌∷◌, String, max, if◌then◌else◌,
  ltb, leb, add32, add64, sub64,
}
use kanbei.Base.Map.{Map, lookup, insert, remove}
use kanbei.Scheduler.Types.{
  TerminalOutcome, progress, no_progress, waiting, blocked, failed, completed_goal, RunOutcome,
  BreakerTrip, BreakerCounter, Budgets, RunUsage, BreakerFloors, not_active_run, SchedulerResult,
  ok, err,
}
use kanbei.Scheduler.State.{Scheduler}

-- `record_outcome_reason` and `record_outcome_inner`. First the budgets of the finished run.
abbrev pub within : Option ℕ → ℕ → Bool
within none used = true
within (some b) used = leb used b

unfoldable pub budget_ok : Budgets → RunUsage → Bool
budget_ok b u = within b.tokens u.tokens && (within b.tools u.tools && within b.children u.children)

-- The spend window restarts when it is over, and then takes the run's tokens.
unfoldable pub charge : BreakerFloors → ℕ → ℕ → ℕ × ℕ → ℕ × ℕ
charge floors now tokens (start, spent) =
    if ltb floors.spend_window_secs (sub64 now start)
    then (now, add64 0 tokens)
    else (start, add64 spent tokens)

unfoldable pub count_action : BreakerFloors → ℕ → Option (ℕ × ℕ) → ℕ × ℕ
count_action floors now none = (now, add32 0 1)
count_action floors now (some (start, n)) =
    if ltb floors.spend_window_secs (sub64 now start) then (now, add32 0 1) else (start, add32 n 1)

unfoldable pub count_actions : BreakerFloors → ℕ → List ℕ → Map (ℕ × ℕ) → Map (ℕ × ℕ)
unfolding count_action
count_actions floors now [] window = window
count_actions floors now (d ∷ ds) window =
    count_actions floors now ds (insert d (count_action floors now (lookup d window)) window)

-- A trip of a counter that has reached its floor.
abbrev pub trip_at : BreakerCounter → ℕ → ℕ → Option BreakerTrip
trip_at counter value threshold =
    if leb threshold value
    then some (record { counter = counter; value = value; threshold = threshold })
    else none

unfoldable pub no_progress_streak : Option ℕ → ℕ → ℕ
no_progress_streak none n = add32 n 1
no_progress_streak (some seq) n = 0

-- The `match final_outcome` of `record_outcome_inner`: the counters after it, and its trip.
unfoldable pub streaks : Scheduler → TerminalOutcome → Scheduler × Option BreakerTrip
unfolding no_progress_streak
streaks s (failed kind) =
    let n = add32 s.consecutive_failed 1 in
    (
      record s { consecutive_failed = n },
      trip_at BreakerCounter.consecutive_failed n s.floors.consecutive_failed,
    )
streaks s no_progress =
    let n = no_progress_streak s.last_causal_event s.no_progress_run in
    (
      record s { last_causal_event = none; no_progress_run = n },
      trip_at BreakerCounter.no_progress_without_causal n s.floors.no_progress_without_causal,
    )
streaks s waiting =
    let n = no_progress_streak s.last_causal_event s.no_progress_run in
    (
      record s { last_causal_event = none; no_progress_run = n },
      trip_at BreakerCounter.no_progress_without_causal n s.floors.no_progress_without_causal,
    )
streaks s progress = (record s { consecutive_failed = 0; no_progress_run = 0 }, none)
streaks s completed_goal = (record s { consecutive_failed = 0; no_progress_run = 0 }, none)
streaks s blocked = (s, none)

-- `values().map(|(_, c)| *c).max().unwrap_or(0)`.
unfoldable pub max_count : Map (ℕ × ℕ) → ℕ
max_count [] = 0
max_count ((d, (start, n)) ∷ m) = max n (max_count m)

-- The breakers that `trip.or_else` asks: identical actions, then spend.
unfoldable pub window_trip : Scheduler → Option BreakerTrip
window_trip s =
    if leb s.floors.identical_action (max_count s.action_window)
    then some (record {
      counter = BreakerCounter.identical_action;
      value = max_count s.action_window;
      threshold = s.floors.identical_action;
    })
    else trip_at BreakerCounter.spend s.spend.1 s.floors.spend_tokens

abbrev pub or_else {ℓ} : {A : Type ℓ} → Option A → Option A → Option A
or_else none b = b
or_else (some a) b = some a

-- `if let Some(t) = trip { self.paused = Some(t); }`
unfoldable pub pause_on : Option BreakerTrip → Scheduler → Scheduler
pause_on none s = s
pause_on (some trip) s = record s { paused = some trip }

-- The active run leaves the scheduler, with its outcome as it was reported.
unfoldable pub close_active : Scheduler → ℕ → TerminalOutcome → Scheduler
close_active s run_id outcome = record s {
  active = none;
  runs = remove run_id s.runs;
  outcomes = s.outcomes ++ (run_id, outcome) ∷ [];
}

unfoldable pub settle : Scheduler → RunUsage → List ℕ → ℕ → Scheduler
unfolding charge count_actions
settle s usage actions now = record s {
  spend = charge s.floors now usage.tokens s.spend;
  action_window = count_actions s.floors now actions s.action_window;
}

abbrev pub final_outcome : Scheduler → RunUsage → TerminalOutcome → TerminalOutcome
final_outcome s usage outcome = if budget_ok s.budgets usage then outcome else blocked

abbrev pub final_reason : Scheduler → RunUsage → Option String → Option String
final_reason s usage reason =
    or_else reason
      (if budget_ok s.budgets usage then none else some "run budget exhausted (session budgets)")

-- What follows the test that `run_id` is the active run.
unfoldable pub finish :
    Scheduler
    → ℕ
    → TerminalOutcome
    → RunUsage
    → List ℕ
    → Option String
    → ℕ
    → Scheduler × SchedulerResult (RunOutcome × Option BreakerTrip)
unfolding close_active settle streaks window_trip pause_on
finish s run_id outcome usage actions reason now =
    let settled = settle (close_active s run_id outcome) usage actions now in
    let (counted, streak) = streaks settled (final_outcome s usage outcome) in
    let trip = or_else streak (window_trip counted) in
    (
      pause_on trip counted,
      ok (
        record {
          run_id = run_id;
          outcome = final_outcome s usage outcome;
          reason = final_reason s usage reason;
        },
        trip,
      ),
    )

-- `record_outcome_inner`. A child run is dropped, and no breaker hears of it.
unfoldable pub record_outcome_inner :
    Scheduler
    → ℕ
    → TerminalOutcome
    → RunUsage
    → List ℕ
    → Option String
    → ℕ
    → Scheduler × SchedulerResult (RunOutcome × Option BreakerTrip)
record_outcome_inner s run_id outcome usage actions reason now = elim (lookup run_id s.children) [
  | some c ↦ (
    record s { children = remove run_id s.children; last_child_usage = some (run_id, c.usage) },
    ok (record { run_id = run_id; outcome = outcome; reason = reason }, none),
  )
  | none ↦ elim s.active [
    | none ↦ (s, err (not_active_run run_id))
    | some run ↦
        if run.id == run_id
        then finish s run_id outcome usage actions reason now
        else (s, err (not_active_run run_id))
  ]
]

unfoldable pub record_outcome :
    Scheduler
    → ℕ
    → TerminalOutcome
    → RunUsage
    → List ℕ
    → ℕ
    → Scheduler × SchedulerResult (RunOutcome × Option BreakerTrip)
record_outcome s run_id outcome usage actions now =
    record_outcome_inner s run_id outcome usage actions none now

-- `record_outcome_reason` has the same first block as `record_outcome_inner`.
unfoldable pub record_outcome_reason :
    Scheduler
    → ℕ
    → TerminalOutcome
    → RunUsage
    → List ℕ
    → Option String
    → ℕ
    → Scheduler × SchedulerResult (RunOutcome × Option BreakerTrip)
record_outcome_reason s run_id outcome usage actions reason now = elim (lookup run_id s.children) [
  | some c ↦ (
    record s { children = remove run_id s.children; last_child_usage = some (run_id, c.usage) },
    ok (record { run_id = run_id; outcome = outcome; reason = reason }, none),
  )
  | none ↦ record_outcome_inner s run_id outcome usage actions reason now
]
