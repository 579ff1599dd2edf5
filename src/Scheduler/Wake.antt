-- ===== src/Scheduler/Wake.antt =====
-- `Scheduler::accept_wake` of crates/kanbei-scheduler/src/lib.rs.
use kanbei.Base.{
  ℕ, ◌++◌, ◌&&◌, Bool, not, Option, none, some, List, [], ◌∷◌, if◌then◌else◌, ltb, is_some,
  is_empty, keep,
}
use kanbei.Base.Map.{insert}
use kanbei.Scheduler.Types.{
  RunKind, cognition_step, TriggerKind, timer, new_causal_event, Trigger, trigger_eq, WakeBatch,
  DenialReason, WakeDecision, accepted, denied,
}
use kanbei.Scheduler.State.{Scheduler, no_usage}

-- `accept_wake`, in the order of its blocks. The batch of the highest priority, the first of equals.
unfoldable pub best_batch :
    (RunKind → ℕ) → Option (ℕ × WakeBatch) → List WakeBatch → Option (ℕ × WakeBatch)
best_batch priority best [] = best
best_batch priority none (b ∷ bs) = best_batch priority (some (priority b.kind, b)) bs
best_batch priority (some (bp, best)) (b ∷ bs) =
    best_batch priority
      (if ltb bp (priority b.kind) then some (priority b.kind, b) else some (bp, best)) bs

-- `for t in &batch.triggers { all.retain(|x| x != t); }`
unfoldable pub losers : List Trigger → List Trigger → List Trigger
losers all [] = all
losers all (t ∷ ts) = losers (keep (λ x. not (trigger_eq x t)) all) ts

unfoldable pub first_kind : List Trigger → TriggerKind
first_kind [] = timer
first_kind (t ∷ ts) = t.kind

unfoldable pub referents : List Trigger → List ℕ
referents [] = []
referents (t ∷ ts) = elim t.referent [ none ↦ referents ts | some d ↦ d ∷ referents ts ]

abbrev pub deny : TriggerKind → DenialReason → WakeDecision
deny trigger reason =
    denied (record { kind = cognition_step; trigger_kind = trigger; reason = reason })

unfoldable pub start_batch : Scheduler → WakeBatch → List Trigger → ℕ → ℕ → Scheduler × WakeDecision
unfolding losers first_kind referents
start_batch s batch drained run_id now = (
  record s {
    pending = s.pending ++ losers drained batch.triggers;
    active = some (record { id = run_id; kind = batch.kind; usage = no_usage now });
    runs = insert run_id batch.kind s.runs;
  },
  accepted (record {
    run_id = run_id;
    kind = batch.kind;
    trigger_kind = first_kind batch.triggers;
    trigger_digests = referents batch.triggers;
  }),
)

-- What follows the guards: the queue is drained before the policy is asked.
unfoldable pub wake : Scheduler → ℕ → ℕ → Scheduler × WakeDecision
unfolding start_batch best_batch
wake s run_id now =
    let drained = record s { pending = [] } in
    elim (best_batch s.policy.priority none (s.policy.coalesce s.pending)) [
      | none ↦ (drained, deny timer DenialReason.policy_rejected)
      | some (p, batch) ↦ start_batch drained batch s.pending run_id now
    ]

unfoldable pub accept_wake : Scheduler → Bool → ℕ → ℕ → Scheduler × WakeDecision
accept_wake s force_manual run_id now = elim s.paused [
  | some trip ↦ (s, deny new_causal_event (DenialReason.breaker_tripped trip.counter))
  | none ↦
      if is_empty s.pending && not force_manual
      then (s, deny timer DenialReason.policy_rejected)
      else if is_some s.active && not force_manual
      then (s, deny timer DenialReason.concurrency_limit)
      else wake s run_id now
]
