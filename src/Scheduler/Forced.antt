-- ===== src/Scheduler/Forced.antt =====
-- What `accept_wake(true)` of crates/kanbei-scheduler/src/lib.rs does to an active run.
use kanbei.Base.{==_refl, ℕ, ◌≡◌, ◌≢◌, true, none, some, List, [], arith, inr, refl}
use kanbei.Base.Map.{lookup, lookup-insert}
use kanbei.Scheduler.Types.{TerminalOutcome, RunUsage, err, not_active_run}
use kanbei.Scheduler.Policy.{default_policy}
use kanbei.Scheduler.State.{Scheduler, ActiveRun, no_usage}
use kanbei.Scheduler.Wake.{accept_wake}
use kanbei.Scheduler.Outcome.{record_outcome, record_outcome_inner}
use kanbei.Scheduler.Queueing.{class_kind}
use kanbei.Scheduler.Wakes.{accept_wake-accepts_iff, accept_wake-accepted}

-- Under the default policy, a forced wake of a scheduler that is not paused, with a pending trigger and an
-- active run that is in the map of runs, has another identity than the new one and is no child, replaces the
-- active run: the new run is the active one and has its kind in the map of runs; the old one stays in that
-- map, and its end is refused as that of a run that is not active, and changes nothing.
pub accept_wake-forced :
    (s : Scheduler) (r : ActiveRun) (run_id now : ℕ)
    → s.policy ≡ default_policy
    → s.paused ≡ none
    → s.pending ≢ []
    → s.active ≡ some r
    → r.id ≢ run_id
    → lookup r.id s.runs ≡ some r.kind
    → lookup r.id s.children ≡ none
    → (outcome : TerminalOutcome) (usage : RunUsage) (actions : List ℕ) (later : ℕ)
    → let t = (accept_wake s true run_id now).0 in
      ((n : ActiveRun) × (t.active ≡ some n)
        × (n.id ≡ run_id)
        × (lookup run_id t.runs ≡ some n.kind))
      × (lookup r.id t.runs ≡ some r.kind)
      × (record_outcome t r.id outcome usage actions later ≡ (t, err (not_active_run r.id)))
unfolding record_outcome record_outcome_inner
accept_wake-forced s r run_id now e unpaused some_pending active other kept no_child outcome usage
      actions later =
    let (a, p) =
      (accept_wake-accepts_iff s run_id now e true).1 (unpaused, some_pending, inr refl) in
    let (c, _, _, q, _) = accept_wake-accepted s run_id now e true a p in
    rw q (
      (
        record { id = run_id; kind = class_kind c; usage = no_usage now },
        refl,
        refl,
        ground (arith, lookup-insert run_id run_id (class_kind c) s.runs, ==_refl run_id),
      ),
      ground (arith, lookup-insert run_id r.id (class_kind c) s.runs),
      ground arith,
    )
