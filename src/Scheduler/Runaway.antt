-- ===== src/Scheduler/Runaway.antt =====
-- The purpose of the failure breaker of crates/kanbei-scheduler/src/lib.rs: a loop that wakes, fails and
-- wakes again is stopped after a number of runs that is known beforehand.
use kanbei.Base.{
  ℕ, ◌+◌, ◌≤◌, ◌≡◌, ◌≢◌, ◌∙◌, ap, inl, inr, true, false, none, some, List, [], ◌∷◌, ◌++◌, arith,
  length, All, All-mono, Option-cases, is_some,
}
use kanbei.Base.Map.{lookup}
use kanbei.Scheduler.Types.{Trigger, TerminalOutcome, failed, FailureKind, RunUsage, BreakerFloors}
use kanbei.Scheduler.Policy.{default_policy}
use kanbei.Scheduler.State.{Scheduler, observe, no_usage}
use kanbei.Scheduler.Wake.{accept_wake}
use kanbei.Scheduler.Outcome.{budget_ok, record_outcome, record_outcome_inner, finish}
use kanbei.Scheduler.Queueing.{Class, class_kind}
use kanbei.Scheduler.Wakes.{accept_wake-accepts_iff, accept_wake-accepted}
use kanbei.Scheduler.Run.{Call, observes, wakes, ends, step, run}
use kanbei.Scheduler.Outcomes.{record_outcome-failed, record_outcome-ends}
use kanbei.Scheduler.Breakers.{BreakersHold, step-BreakersHold}

-- One failing run: a trigger, the wake that it causes, and the end.
pub record Round : Type 0 where
  pub trigger : Trigger
  pub run_id : ℕ
  pub kind : FailureKind
  pub usage : RunUsage
  pub actions : List ℕ
  pub now : ℕ
  pub later : ℕ

abbrev pub calls : Round → List Call
calls r =
    observes r.trigger
    ∷ wakes false r.run_id r.now
    ∷ ends r.run_id (failed r.kind) r.usage r.actions r.later
    ∷ []

unfoldable pub rounds : Scheduler → List Round → Scheduler
rounds s [] = s
rounds s (r ∷ rs) = rounds (run s (calls r)) rs

-- The run's identity is no child's, and it stayed within its budget.
abbrev pub IsOrdinary : Scheduler → Round → Type 0
IsOrdinary s r = (lookup r.run_id s.children ≡ none) × (budget_ok s.budgets r.usage ≡ true)

-- A session between two runs.
pub record IsIdle (s : Scheduler) : Type 0 where
  pub policy : s.policy ≡ default_policy
  pub active : s.active ≡ none
  pub breakers : BreakersHold s

-- What a round leaves alone.
record SameFrame (s t : Scheduler) : Type 0 where
  floors : t.floors ≡ s.floors
  children : t.children ≡ s.children
  budgets : t.budgets ≡ s.budgets

append-ne-nil : (ts : List Trigger) (t : Trigger) → ts ++ t ∷ [] ≢ []
append-ne-nil [] t h = cc
append-ne-nil (x ∷ ts) t h = cc

-- A paused session denies the wake and refuses the end, and stays paused.
round-paused :
    (s : Scheduler) (r : Round)
    → IsIdle s
    → lookup r.run_id s.children ≡ none
    → is_some s.paused ≡ true
    → (run s (calls r) ≡ observe s r.trigger)
unfolding run step observe accept_wake record_outcome record_outcome_inner
round-paused s r h e p = ground (arith, h.active)

module _ (s : Scheduler) (r : Round) (h : IsIdle s) (p : s.paused ≡ none) where
  seen : Scheduler
  seen = observe s r.trigger

  woken : Scheduler
  woken = (accept_wake seen false r.run_id r.now).0

  woken_lem :
      (c : Class) × (woken.active
        ≡ some (record { id = r.run_id; kind = class_kind c; usage = no_usage r.now }))
      × (woken.consecutive_failed ≡ s.consecutive_failed)
      × (woken.paused ≡ none)
      × (woken.policy ≡ default_policy)
      × SameFrame s woken
  unfolding woken seen observe
  woken_lem =
      let (a, q) =
        (accept_wake-accepts_iff seen r.run_id r.now h.policy false).1
          (p, append-ne-nil s.pending r.trigger, inl h.active) in
      let (c, _, _, e, _) = accept_wake-accepted seen r.run_id r.now h.policy false a q in
      (
        c,
        ap (λ (t : Scheduler). t.active) e,
        ap (λ (t : Scheduler). t.consecutive_failed) e,
        ap (λ (t : Scheduler). t.paused) e ∙ p,
        ap (λ (t : Scheduler). t.policy) e ∙ h.policy,
        record {
          floors = ap (λ (t : Scheduler). t.floors) e;
          children = ap (λ (t : Scheduler). t.children) e;
          budgets = ap (λ (t : Scheduler). t.budgets) e;
        },
      )

outcome-SameFrame :
    (s : Scheduler) (id : ℕ) (outcome : TerminalOutcome) (usage : RunUsage) (actions : List ℕ)
    (now : ℕ)
    → lookup id s.children ≡ none
    → SameFrame s (record_outcome s id outcome usage actions now).0
      × ((record_outcome s id outcome usage actions now).0.policy ≡ s.policy)
unfolding record_outcome record_outcome_inner finish
outcome-SameFrame s id outcome usage actions now h = ground arith

SameFrame-trans : {s t u : Scheduler} → SameFrame s t → SameFrame t u → SameFrame s u
SameFrame-trans a b = record {
  floors = b.floors ∙ a.floors;
  children = b.children ∙ a.children;
  budgets = b.budgets ∙ a.budgets;
}

-- What one more failing run leads to: one more failure, and still idle.
record After (s t : Scheduler) : Type 0 where
  idle : IsIdle t
  frame : SameFrame s t
  failures : t.consecutive_failed ≡ s.consecutive_failed + 1

round-unpaused :
    (s : Scheduler) (r : Round)
    → IsIdle s
    → s.paused ≡ none
    → IsOrdinary s r
    → After s (run s (calls r))
unfolding run step woken seen
round-unpaused s r h p o =
    let (c, active, count, unpaused, policy, frame) = woken_lem s r h p in
    let b =
      step-BreakersHold (woken s r h p) (ends r.run_id (failed r.kind) r.usage r.actions r.later) in
    let kept =
      step-BreakersHold (observe s r.trigger) (wakes false r.run_id r.now)
        (step-BreakersHold s (observes r.trigger) h.breakers) in
    let no_child : lookup r.run_id (woken s r h p).children ≡ none = rw frame.children o.0 in
    let in_budget : budget_ok (woken s r h p).budgets r.usage ≡ true = rw frame.budgets o.1 in
    let (frame', policy') =
      outcome-SameFrame (woken s r h p) r.run_id (failed r.kind) r.usage r.actions r.later
        no_child in
    record {
      idle = record {
        policy = policy' ∙ policy;
        active =
            (record_outcome-ends (woken s r h p) _ (failed r.kind) r.usage r.actions r.later
              no_child active unpaused).1;
        breakers = b kept;
      };
      frame = SameFrame-trans frame frame';
      failures =
          (record_outcome-failed (woken s r h p) _ r.kind r.usage r.actions r.later kept no_child
            active in_budget).0
          ∙ ap (λ (n : ℕ). n + 1) count;
    }

IsOrdinary-frame :
    (s t : Scheduler) (rs : List Round)
    → SameFrame s t
    → All (IsOrdinary s) rs
    → All (IsOrdinary t) rs
IsOrdinary-frame s t rs f h =
    All-mono (IsOrdinary s) (IsOrdinary t) (λ r o. (rw f.children o.0, rw f.budgets o.1)) rs h

observe-IsIdle : (s : Scheduler) (t : Trigger) → IsIdle s → IsIdle (observe s t)
unfolding observe step
observe-IsIdle s t h = record {
  policy = h.policy;
  active = h.active;
  breakers = step-BreakersHold s (observes t) h.breakers;
}

-- Once paused, the loop stays paused.
rounds-paused :
    (s : Scheduler) (rs : List Round)
    → IsIdle s
    → All (IsOrdinary s) rs
    → is_some s.paused ≡ true
    → is_some (rounds s rs).paused ≡ true
unfolding rounds observe
rounds-paused s [] h o p = p
rounds-paused s (r ∷ rs) h o p =
    ap (λ (t : Scheduler). is_some (rounds t rs).paused) (round-paused s r h o.0.0 p)
    ∙ rounds-paused (observe s r.trigger) rs (observe-IsIdle s r.trigger h) o.1 p

-- From an idle session, after failing runs whose number, with the failures counted before, reaches the
-- failure floor, cognition is paused (by the failure breaker, or by another one before it). Each run
-- stays within the budgets, and none has the identity of a child.
pub rounds-pause :
    (s : Scheduler) (rs : List Round)
    → IsIdle s
    → All (IsOrdinary s) rs
    → s.floors.consecutive_failed ≤ s.consecutive_failed + length rs
    → is_some (rounds s rs).paused ≡ true
unfolding rounds
rounds-pause s [] h o n = ground (arith, h.breakers.failed)
rounds-pause s (r ∷ rs) h o n = elim (Option-cases s.paused) [
  | inr (trip, p) ↦ rounds-paused s (r ∷ rs) h o (rw p)
  | inl p ↦
      let a = round-unpaused s r h p o.0 in
      rounds-pause (run s (calls r)) rs a.idle (IsOrdinary-frame s _ rs a.frame o.1)
        (omega (arith, a.failures, ap (λ (f : BreakerFloors). f.consecutive_failed) a.frame.floors))
]
