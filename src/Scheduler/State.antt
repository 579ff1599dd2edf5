-- ===== src/Scheduler/State.antt =====
-- The state of crates/kanbei-scheduler/src/lib.rs and the methods that set one part of it. A method is
-- a function from the state, its arguments, the reading of the clock (`now_secs`) and, where it makes
-- one, the fresh run identity (`RunId::generate`).
use kanbei.Base.{ℕ, ◌++◌, Option, none, some, List, [], ◌∷◌, max}
use kanbei.Base.Map.{Map}
use kanbei.Scheduler.Types.{
  RunKind, Trigger, TerminalOutcome, BreakerTrip, BreakerCounter, Budgets, RunUsage, ChildRun,
  BreakerFloors, default_floors, invalid, SchedulerResult, ok, err,
}
use kanbei.Scheduler.Policy.{SchedulerPolicy, default_policy}

pub record ActiveRun : Type 0 where
  pub id : ℕ
  pub kind : RunKind
  pub usage : RunUsage

pub record Scheduler : Type 0 where
  pub policy : SchedulerPolicy
  pub floors : BreakerFloors
  pub paused : Option BreakerTrip
  pub pending : List Trigger
  pub active : Option ActiveRun
  pub consecutive_failed : ℕ
  pub no_progress_run : ℕ
  pub last_causal_event : Option ℕ
  pub action_window : Map (ℕ × ℕ)
  pub spend : ℕ × ℕ
  pub runs : Map RunKind
  pub children : Map ChildRun
  pub outcomes : List (ℕ × TerminalOutcome)
  pub last_child_usage : Option (ℕ × RunUsage)
  pub budgets : Budgets

abbrev pub no_usage : ℕ → RunUsage
no_usage now = record { tokens = 0; tools = 0; children = 0; started_at_secs = now }

-- `Scheduler::new`: the configured floors are raised to the kernel's.
unfoldable pub clamp_floors : BreakerFloors → BreakerFloors
clamp_floors f = record {
  consecutive_failed = max f.consecutive_failed default_floors.consecutive_failed;
  no_progress_without_causal =
      max f.no_progress_without_causal default_floors.no_progress_without_causal;
  identical_action = max f.identical_action default_floors.identical_action;
  spend_window_secs = max f.spend_window_secs default_floors.spend_window_secs;
  spend_tokens = max f.spend_tokens default_floors.spend_tokens;
}

unfoldable pub new : Budgets → BreakerFloors → ℕ → Scheduler
unfolding clamp_floors
new budgets floors now = record {
  policy = default_policy;
  floors = clamp_floors floors;
  paused = none;
  pending = [];
  active = none;
  consecutive_failed = 0;
  no_progress_run = 0;
  last_causal_event = none;
  action_window = [];
  spend = (now, 0);
  runs = [];
  children = [];
  outcomes = [];
  last_child_usage = none;
  budgets = budgets;
}

unfoldable pub with_policy : Scheduler → SchedulerPolicy → Scheduler
with_policy s p = record s { policy = p }

unfoldable pub pause : Scheduler → BreakerTrip → Scheduler
pause s trip = record s { paused = some trip }

unfoldable pub reset_counter : Scheduler → BreakerCounter → ℕ → Scheduler
reset_counter s BreakerCounter.consecutive_failed now = record s { consecutive_failed = 0 }
reset_counter s BreakerCounter.no_progress_without_causal now = record s { no_progress_run = 0 }
reset_counter s BreakerCounter.identical_action now = record s { action_window = [] }
reset_counter s BreakerCounter.spend now = record s { spend = (now, 0) }

unfoldable pub resume : Scheduler → ℕ → Scheduler × SchedulerResult (Unit {0})
unfolding reset_counter
resume s now = elim s.paused [
  | none ↦ (s, err (invalid "resume without pause"))
  | some trip ↦ (reset_counter (record s { paused = none }) trip.counter now, ok tt)
]

unfoldable pub observe : Scheduler → Trigger → Scheduler
observe s t = record s { pending = s.pending ++ t ∷ [] }

unfoldable pub record_causal_event : Scheduler → ℕ → Scheduler
record_causal_event s seq = record s { last_causal_event = some seq }

unfoldable pub set_budgets : Scheduler → Budgets → Scheduler
set_budgets s b = record s { budgets = b }
