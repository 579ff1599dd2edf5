-- ===== src/Scheduler/Examples.antt =====
-- The scheduler of crates/kanbei-scheduler/src/lib.rs on concrete inputs: tests, and the theorems about
-- it at inputs that meet their hypotheses.
use kanbei.Base.{
  ℕ, ◌+◌, ◌≡◌, ◌≢◌, ◌↔◌, refl, ◌⊎◌, inl, true, false, none, some, List, [], ◌∷◌, arith, is_some,
}
use kanbei.Base.Map.{lookup}
use kanbei.Scheduler.Types.{
  responder_turn, child, Trigger, user_message, new_causal_event, timer, WakeAcceptance, accepted,
  DenialReason, progress, failed, FailureKind, RunUsage, default_budgets, default_floors, ChildRun,
  ok, err, not_active_run, kind_eq, trigger_eq,
}
use kanbei.Scheduler.Policy.{default_policy, coalesce, group, priority}
use kanbei.Scheduler.State.{Scheduler, ActiveRun, no_usage}
use kanbei.Scheduler.Wake.{accept_wake, wake, deny}
use kanbei.Scheduler.Outcome.{record_outcome, budget_ok}
use kanbei.Scheduler.Usage.{check_boundary}
use kanbei.Scheduler.Run.{Call, observes, wakes, ends, run}
use kanbei.Scheduler.Breakers.{BreakersHold, FloorsHold, opened, run-BreakersHold}
use kanbei.Scheduler.Wakes.{Accepts, accept_wake-accepts_iff, accept_wake-accepted}
use kanbei.Scheduler.Runs.{run-RunsExact, active_kind, accept_wake-active}
use kanbei.Scheduler.Forced.{accept_wake-forced}
use kanbei.Scheduler.Outcomes.{record_outcome-ends}
use kanbei.Scheduler.Runaway.{Round, rounds, rounds-pause, IsIdle}
use kanbei.Scheduler.Boundaries.{use_all, check_boundary-use_all, InTime, Under, total}

abbrev asked : Trigger
asked = record { kind = user_message; referent = some 11 }

abbrev caused : Trigger
caused = record { kind = new_causal_event; referent = none }

abbrev spent : RunUsage
spent = record { tokens = 40; tools = 1; children = 0; started_at_secs = 1000 }

abbrev excessive : RunUsage
excessive = record { tokens = 100001; tools = 1; children = 0; started_at_secs = 1000 }

-- A session with two pending triggers.
abbrev ready : Scheduler
ready = record {
  policy = default_policy;
  floors = default_floors;
  paused = none;
  pending = caused ∷ asked ∷ [];
  active = none;
  consecutive_failed = 0;
  no_progress_run = 0;
  last_causal_event = none;
  action_window = [];
  spend = (1000, 0);
  runs = [];
  children = [];
  outcomes = [];
  last_child_usage = none;
  budgets = default_budgets;
}

abbrev responder : ActiveRun
responder = record { id = 7; kind = responder_turn; usage = no_usage 1000 }

-- The session while a run is active.
abbrev busy : Scheduler
busy = record ready { active = some responder; runs = (7, responder_turn) ∷ [] }

abbrev answered : WakeAcceptance
answered = record {
  run_id = 7;
  kind = responder_turn;
  trigger_kind = user_message;
  trigger_digests = 11 ∷ [];
}

-- The user's message is taken first, and the causal event stays pending.
ready_wakes : (accept_wake ready false 7 1000).1 ≡ accepted answered
unfolding accept_wake wake coalesce group kind_eq trigger_eq priority
ready_wakes = refl

busy_denies : (accept_wake busy false 8 1000).1 ≡ deny timer DenialReason.concurrency_limit
unfolding accept_wake
busy_denies = refl

abbrev history : List Call
history =
    observes asked ∷ wakes false 7 1000 ∷ ends 7 (failed FailureKind.provider) spent [] 1010 ∷ []

run-BreakersHold_example :
    BreakersHold (run (opened default_budgets default_floors none 1000) history)
run-BreakersHold_example =
    run-BreakersHold default_budgets default_floors none 1000 history (omega arith) (omega arith)

accept_wake-accepts_iff_example :
    ((a : WakeAcceptance) × ((accept_wake ready false 7 1000).1 ≡ accepted a))
    ↔ ((ready.paused ≡ none) × (ready.pending ≢ []) × ((ready.active ≡ none) ⊎ (false ≡ true)))
accept_wake-accepts_iff_example = accept_wake-accepts_iff ready 7 1000 refl false

accept_wake-accepted_example : Accepts ready 7 1000 answered (accept_wake ready false 7 1000).0
accept_wake-accepted_example = accept_wake-accepted ready 7 1000 refl false answered ready_wakes

run-RunsExact_example :
    lookup 7 (run (opened default_budgets default_floors none 1000) history).runs
    ≡ active_kind (run (opened default_budgets default_floors none 1000) history).active 7
run-RunsExact_example =
    run-RunsExact default_budgets default_floors none 1000 history (tt, (tt, (tt, tt))) 7

accept_wake-active_example : (accept_wake busy false 8 1000).0 ≡ busy
accept_wake-active_example = accept_wake-active busy responder 8 1000 refl

accept_wake-forced_example :
    let t = (accept_wake busy true 8 1000).0 in
    ((n : ActiveRun) × (t.active ≡ some n) × (n.id ≡ 8) × (lookup 8 t.runs ≡ some n.kind))
    × (lookup 7 t.runs ≡ some responder_turn)
    × (record_outcome t 7 progress spent [] 1010 ≡ (t, err (not_active_run 7)))
unfolding lookup
accept_wake-forced_example =
    accept_wake-forced busy responder 8 1000 refl refl (λ h. cc) refl (omega arith) refl refl
      progress spent [] 1010

abbrev helper : ChildRun
helper = record {
  run_id = 21;
  parent = 7;
  kind = child;
  budgets = default_budgets;
  started_at_secs = 1001;
  usage = spent;
}

abbrev with_helper : Scheduler
with_helper = record busy { children = (21, helper) ∷ [] }

record_outcome-ends_example : (record_outcome busy 7 progress spent [] 1010).0.active ≡ none
unfolding lookup
record_outcome-ends_example =
    (record_outcome-ends busy responder progress spent [] 1010 refl refl refl).1

floors_hold : FloorsHold default_floors
floors_hold = omega arith

busy-BreakersHold : BreakersHold busy
busy-BreakersHold = record {
  floors = floors_hold;
  failed = inl (omega arith);
  no_progress = inl (omega arith);
  idle = inl refl;
}

abbrev failing : ℕ → Round
failing id = record {
  trigger = caused;
  run_id = id;
  kind = FailureKind.provider;
  usage = spent;
  actions = [];
  now = 1000;
  later = 1010;
}

ready-IsIdle : IsIdle ready
ready-IsIdle = record {
  policy = refl;
  active = refl;
  breakers = record {
    floors = floors_hold;
    failed = inl (omega arith);
    no_progress = inl (omega arith);
    idle = inl refl;
  };
}

rounds-pause_example : is_some (rounds ready (failing 1 ∷ failing 2 ∷ failing 3 ∷ [])).paused ≡ true
unfolding lookup budget_ok
rounds-pause_example =
    rounds-pause ready (failing 1 ∷ failing 2 ∷ failing 3 ∷ []) ready-IsIdle
      ((refl, refl), ((refl, refl), ((refl, refl), tt))) (omega arith)

check_boundary-use_all_example :
    (check_boundary (use_all busy 7 (spent ∷ spent ∷ [])) 7 1050 ≡ ok tt) ↔ (
      InTime (some 120) 1000 1050
      × Under (some 100000) (0 + total (λ u. u.tokens) (spent ∷ spent ∷ []))
      × Under (some 64) (0 + total (λ u. u.tools) (spent ∷ spent ∷ [])))
unfolding lookup total
check_boundary-use_all_example =
    check_boundary-use_all busy responder (spent ∷ spent ∷ []) 1050 refl refl
      (record { tokens = omega arith; tools = omega arith; children = omega arith })
