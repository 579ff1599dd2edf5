-- ===== src/Scheduler/Runs.antt =====
-- Who runs, in crates/kanbei-scheduler/src/lib.rs: one run at a time, the map of live runs, and what a
-- forced wake does to the run that it finds.
use kanbei.Base.{
  ℕ, ◌≡◌, inl, inr, ◌==◌, true, false, Option, none, some, List, [], ◌∷◌, arith, if◌then◌else◌,
  Option-cases, String, All,
}
use kanbei.Base.Map.{lookup, lookup-insert, lookup-remove, lookup-nil}
use kanbei.Scheduler.Types.{
  RunKind, WakeBatch, Trigger, TerminalOutcome, RunUsage, Budgets, BreakerFloors, BreakerTrip,
}
use kanbei.Scheduler.State.{Scheduler, ActiveRun, resume, observe, record_causal_event, set_budgets}
use kanbei.Scheduler.Wake.{accept_wake, wake, best_batch, start_batch}
use kanbei.Scheduler.Outcome.{finish, record_outcome, record_outcome_inner, record_outcome_reason}
use kanbei.Scheduler.Usage.{record_usage, spawn_child}
use kanbei.Scheduler.Run.{
  Call, observes, wakes, ends, ends_with_reason, resumes, notes_causal_event, uses, spawns,
  sets_budgets, step, run,
}
use kanbei.Scheduler.Breakers.{opened}

-- The session never forces a wake.
abbrev pub IsUnforced : Call → Type 0
IsUnforced (wakes true run_id now) = ⊥
IsUnforced _ = Unit

abbrev pub active_kind : Option ActiveRun → ℕ → Option RunKind
active_kind none id = none
active_kind (some r) id = if r.id == id then some r.kind else none

-- The map of runs holds the active run and no other.
pub record RunsExact (s : Scheduler) : Type 0 where
  pub at : (id : ℕ) → lookup id s.runs ≡ active_kind s.active id

start-RunsExact :
    (s : Scheduler) (batch : WakeBatch) (drained : List Trigger) (run_id now : ℕ)
    → s.active ≡ none
    → RunsExact s
    → RunsExact (start_batch s batch drained run_id now).0
unfolding start_batch
start-RunsExact s batch drained run_id now e h = record {
  at = λ id. ground (arith, h.at id, lookup-insert run_id id batch.kind s.runs);
}

-- A wake either drains the queue, or starts a batch on the drained state.
wake_cases {ℓ} :
    (P : Scheduler → Type ℓ) (s : Scheduler) (run_id now : ℕ)
    → P (record s { pending = [] })
    → ((batch : WakeBatch)
        → P (start_batch (record s { pending = [] }) batch s.pending run_id now).0)
    → P (wake s run_id now).0
unfolding wake
wake_cases P s run_id now empty started =
    elim (Option-cases (best_batch s.policy.priority none (s.policy.coalesce s.pending))) [
      | inl e ↦ rw (e, wake) empty
      | inr (b, e) ↦ rw (e, wake) (started b.1)
    ]

wake-RunsExact :
    (s : Scheduler) (run_id now : ℕ) → RunsExact s → RunsExact (accept_wake s false run_id now).0
unfolding accept_wake
wake-RunsExact s run_id now h = ground (
  arith,
  λ (e : s.active ≡ none).
      wake_cases RunsExact s run_id now (record { at = h.at })
        (λ batch.
          start-RunsExact (record s { pending = [] }) batch s.pending run_id now e
            (record { at = h.at })),
)

outcome-RunsExact :
    (s : Scheduler) (run_id : ℕ) (outcome : TerminalOutcome) (usage : RunUsage) (actions : List ℕ)
    (reason : Option String) (now : ℕ)
    → RunsExact s
    → RunsExact (record_outcome_inner s run_id outcome usage actions reason now).0
unfolding record_outcome_inner finish
outcome-RunsExact s run_id outcome usage actions reason now h = record {
  at = λ id. ground (arith, h.at id, lookup-remove run_id id s.runs);
}

reason-RunsExact :
    (s : Scheduler) (run_id : ℕ) (outcome : TerminalOutcome) (usage : RunUsage) (actions : List ℕ)
    (reason : Option String) (now : ℕ)
    → RunsExact s
    → RunsExact (record_outcome_reason s run_id outcome usage actions reason now).0
unfolding record_outcome_reason
reason-RunsExact s run_id outcome usage actions reason now h =
    ground (arith, outcome-RunsExact s run_id outcome usage actions reason now h, h.at)

resume-RunsExact : (s : Scheduler) (now : ℕ) → RunsExact s → RunsExact (resume s now).0
unfolding resume
resume-RunsExact s now h = record { at = λ id. ground (arith, h.at id) }

usage-RunsExact :
    (s : Scheduler) (run_id : ℕ) (usage : RunUsage)
    → RunsExact s
    → RunsExact (record_usage s run_id usage).0
unfolding record_usage
usage-RunsExact s run_id usage h = record { at = λ id. ground (arith, h.at id) }

spawn-RunsExact :
    (s : Scheduler) (parent : ℕ) (b : Budgets) (run_id now : ℕ)
    → RunsExact s
    → RunsExact (spawn_child s parent b run_id now).0
unfolding spawn_child
spawn-RunsExact s parent b run_id now h = record { at = λ id. ground (arith, h.at id) }

step-RunsExact : (s : Scheduler) (c : Call) → IsUnforced c → RunsExact s → RunsExact (step s c)
unfolding step observe record_causal_event set_budgets record_outcome
step-RunsExact s (observes t) u h = record { at = h.at }
step-RunsExact s (wakes true run_id now) u h = elim u [ ]
step-RunsExact s (wakes false run_id now) u h = wake-RunsExact s run_id now h
step-RunsExact s (ends run_id outcome usage actions now) u h =
    outcome-RunsExact s run_id outcome usage actions none now h
step-RunsExact s (ends_with_reason run_id outcome usage actions reason now) u h =
    reason-RunsExact s run_id outcome usage actions reason now h
step-RunsExact s (resumes now) u h = resume-RunsExact s now h
step-RunsExact s (notes_causal_event seq) u h = record { at = h.at }
step-RunsExact s (uses run_id usage) u h = usage-RunsExact s run_id usage h
step-RunsExact s (spawns parent b run_id now) u h = spawn-RunsExact s parent b run_id now h
step-RunsExact s (sets_budgets b) u h = record { at = h.at }

runs_from :
    (s : Scheduler) (cs : List Call) → All IsUnforced cs → RunsExact s → RunsExact (run s cs)
unfolding run
runs_from s [] u h = h
runs_from s (c ∷ cs) u h = runs_from (step s c) cs u.1 (step-RunsExact s c u.0 h)

opened-RunsExact :
    (b : Budgets) (f : BreakerFloors) (restored : Option BreakerTrip) (now : ℕ)
    → RunsExact (opened b f restored now)
unfolding opened
opened-RunsExact b f restored now = record {
  at = λ id. ground (arith, lookup-nil {V = RunKind} id);
}

-- After any history with no forced wake, the map of live runs holds the active run, with its kind, and
-- nothing else: no run is left behind and none runs beside another.
pub run-RunsExact :
    (b : Budgets) (f : BreakerFloors) (restored : Option BreakerTrip) (now : ℕ) (cs : List Call)
    → All IsUnforced cs
    → (id : ℕ)
    → lookup id (run (opened b f restored now) cs).runs
      ≡ active_kind (run (opened b f restored now) cs).active id
run-RunsExact b f restored now cs u id =
    (runs_from (opened b f restored now) cs u (opened-RunsExact b f restored now)).at id

-- An unforced wake is refused while a run is active: that run, and the whole state, stays.
pub accept_wake-active :
    (s : Scheduler) (r : ActiveRun) (run_id now : ℕ)
    → s.active ≡ some r
    → (accept_wake s false run_id now).0 ≡ s
unfolding accept_wake
accept_wake-active s r run_id now e = ground arith
