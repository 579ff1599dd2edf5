-- ===== src/Scheduler/Types.antt =====
-- The data of crates/kanbei-scheduler/src/lib.rs: triggers, wakes, records, budgets, floors, errors.
-- An `Id128` and a `Digest` are their bytes read as one number. The text of an error message stands
-- as the constructor that determines it.
use kanbei.Base.{
  ℕ, ◌==◌, ◌≡◌, ◌↔◌, Bool, true, false, ◌&&◌, Option, none, some, List, String, arith,
}

pub data RunKind : Type 0 where
  cognition_step responder_turn child : RunKind

pub data TriggerKind : Type 0 where
  user_message timer new_causal_event manual_resume child_done : TriggerKind

pub record Trigger : Type 0 where
  pub kind : TriggerKind
  pub referent : Option ℕ

pub record WakeBatch : Type 0 where
  pub kind : RunKind
  pub triggers : List Trigger

pub record WakeAcceptance : Type 0 where
  pub run_id : ℕ
  pub kind : RunKind
  pub trigger_kind : TriggerKind
  pub trigger_digests : List ℕ

pub data BreakerCounter : Type 0 where
  consecutive_failed no_progress_without_causal identical_action spend : BreakerCounter

pub data DenialReason : Type 0 where
  paused : DenialReason
  breaker_tripped : BreakerCounter → DenialReason
  budget_exhausted : String → DenialReason
  concurrency_limit queue_full policy_rejected : DenialReason

pub record Denial : Type 0 where
  pub kind : RunKind
  pub trigger_kind : TriggerKind
  pub reason : DenialReason

pub data WakeDecision : Type 0 where
  accepted : WakeAcceptance → WakeDecision
  denied : Denial → WakeDecision

pub record RunStart : Type 0 where
  pub run_id : ℕ
  pub kind : RunKind
  pub deadline : Option ℕ

pub data FailureKind : Type 0 where
  deadline user_cancelled provider tool internal quiesced : FailureKind

pub data TerminalOutcome : Type 0 where
  progress no_progress waiting blocked : TerminalOutcome
  failed : FailureKind → TerminalOutcome
  completed_goal : TerminalOutcome

pub record RunOutcome : Type 0 where
  pub run_id : ℕ
  pub outcome : TerminalOutcome
  pub reason : Option String

pub record BreakerTrip : Type 0 where
  pub counter : BreakerCounter
  pub value : ℕ
  pub threshold : ℕ

pub record Budgets : Type 0 where
  pub deadline_secs : Option ℕ
  pub tokens : Option ℕ
  pub tools : Option ℕ
  pub children : Option ℕ

-- `Budgets::default`.
abbrev pub default_budgets : Budgets
default_budgets = record {
  deadline_secs = some 120;
  tokens = some 100000;
  tools = some 64;
  children = some 8;
}

pub record RunUsage : Type 0 where
  pub tokens : ℕ
  pub tools : ℕ
  pub children : ℕ
  pub started_at_secs : ℕ

pub record ChildRun : Type 0 where
  pub run_id : ℕ
  pub parent : ℕ
  pub kind : RunKind
  pub budgets : Budgets
  pub started_at_secs : ℕ
  pub usage : RunUsage

pub record BreakerFloors : Type 0 where
  pub consecutive_failed : ℕ
  pub no_progress_without_causal : ℕ
  pub identical_action : ℕ
  pub spend_window_secs : ℕ
  pub spend_tokens : ℕ

-- `BreakerFloors::default`.
abbrev pub default_floors : BreakerFloors
default_floors = record {
  consecutive_failed = 3;
  no_progress_without_causal = 5;
  identical_action = 4;
  spend_window_secs = 300;
  spend_tokens = 500000;
}

-- What a `BudgetExhausted` message names: a bound of the active run, or one of a child.
pub data Bound : Type 0 where
  deadline tokens tools : Bound
  child_deadline child_tokens : ℕ → Bound

pub data SchedulerError : Type 0 where
  not_active_run : ℕ → SchedulerError
  no_active_run paused : SchedulerError
  budget_exhausted : Bound → SchedulerError
  invalid : String → SchedulerError

pub data SchedulerResult {ℓ} (A : Type ℓ) : Type ℓ where
  ok : A → SchedulerResult A
  err : SchedulerError → SchedulerResult A

-- The derived `PartialEq` of `TriggerKind` and of `Trigger`.
unfoldable pub kind_eq : TriggerKind → TriggerKind → Bool
kind_eq user_message user_message = true
kind_eq timer timer = true
kind_eq new_causal_event new_causal_event = true
kind_eq manual_resume manual_resume = true
kind_eq child_done child_done = true
kind_eq _ _ = false

referent_eq : Option ℕ → Option ℕ → Bool
referent_eq none none = true
referent_eq (some a) (some b) = a == b
referent_eq _ _ = false

unfoldable pub trigger_eq : Trigger → Trigger → Bool
unfolding kind_eq referent_eq
trigger_eq a b = kind_eq a.kind b.kind && referent_eq a.referent b.referent

pub trigger_eq_iff : (a b : Trigger) → (trigger_eq a b ≡ true) ↔ (a ≡ b)
unfolding trigger_eq
trigger_eq_iff a b = (λ h. ground arith, λ h. ground arith)
