-- ===== src/Scheduler/Run.antt =====
-- Histories of crates/kanbei-scheduler/src/lib.rs: every call that the session makes on an open
-- scheduler, and the state after a sequence of them.
use kanbei.Base.{ℕ, Bool, Option, List, [], ◌∷◌, String}
use kanbei.Scheduler.Types.{Trigger, TerminalOutcome, RunUsage, Budgets}
use kanbei.Scheduler.State.{Scheduler, observe, resume, record_causal_event, set_budgets}
use kanbei.Scheduler.Wake.{accept_wake}
use kanbei.Scheduler.Outcome.{record_outcome, record_outcome_reason}
use kanbei.Scheduler.Usage.{record_usage, spawn_child}

-- A call with its arguments, the fresh identity and the time that it reads.
pub data Call : Type 0 where
  observes : Trigger → Call
  wakes : Bool → ℕ → ℕ → Call
  ends : ℕ → TerminalOutcome → RunUsage → List ℕ → ℕ → Call
  ends_with_reason : ℕ → TerminalOutcome → RunUsage → List ℕ → Option String → ℕ → Call
  resumes : ℕ → Call
  notes_causal_event : ℕ → Call
  uses : ℕ → RunUsage → Call
  spawns : ℕ → Budgets → ℕ → ℕ → Call
  sets_budgets : Budgets → Call

unfoldable pub step : Scheduler → Call → Scheduler
step s (observes t) = observe s t
step s (wakes force run_id now) = (accept_wake s force run_id now).0
step s (ends run_id outcome usage actions now) =
    (record_outcome s run_id outcome usage actions now).0
step s (ends_with_reason run_id outcome usage actions reason now) =
    (record_outcome_reason s run_id outcome usage actions reason now).0
step s (resumes now) = (resume s now).0
step s (notes_causal_event seq) = record_causal_event s seq
step s (uses run_id usage) = (record_usage s run_id usage).0
step s (spawns parent budgets run_id now) = (spawn_child s parent budgets run_id now).0
step s (sets_budgets b) = set_budgets s b

unfoldable pub run : Scheduler → List Call → Scheduler
run s [] = s
run s (c ∷ cs) = run (step s c) cs

-- What every call keeps, every history keeps.
pub run_induction {ℓ} :
    (P : Scheduler → Type ℓ)
    → ((s : Scheduler) (c : Call) → P s → P (step s c))
    → (s : Scheduler) (cs : List Call) → P s
    → P (run s cs)
unfolding run
run_induction P keeps s [] h = h
run_induction P keeps s (c ∷ cs) h = run_induction P keeps (step s c) cs (keeps s c h)
