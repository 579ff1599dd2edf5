-- ===== src/Scheduler/Usage.antt =====
-- Usage, boundaries and child runs of crates/kanbei-scheduler/src/lib.rs.
use kanbei.Base.{ℕ, ◌==◌, Bool, false, Option, none, some, if◌then◌else◌, ltb, leb, add64}
use kanbei.Base.Map.{lookup, insert}
use kanbei.Scheduler.Types.{
  RunKind, child, Budgets, RunUsage, ChildRun, RunStart, Bound, not_active_run, budget_exhausted,
  SchedulerResult, ok, err,
}
use kanbei.Scheduler.State.{Scheduler, ActiveRun, no_usage}

abbrev pub is_active : Scheduler → ℕ → Bool
is_active s run_id = elim s.active [ none ↦ false | some run ↦ run.id == run_id ]

-- `self.active.as_ref().filter(|(id, _, _)| *id == run_id).ok_or(NotActiveRun(run_id))`.
unfoldable pub active_as : Scheduler → ℕ → SchedulerResult ActiveRun
active_as s run_id = elim s.active [
  | none ↦ err (not_active_run run_id)
  | some run ↦ if run.id == run_id then ok run else err (not_active_run run_id)
]

abbrev pub after_start : ℕ → Option ℕ → Option ℕ
after_start now none = none
after_start now (some d) = some (add64 now d)

unfoldable pub run_start : Scheduler → ℕ → ℕ → SchedulerResult RunStart
unfolding active_as
run_start s run_id now = elim (lookup run_id s.children) [
  | some c ↦ ok (record {
    run_id = run_id;
    kind = child;
    deadline = after_start c.started_at_secs c.budgets.deadline_secs;
  })
  | none ↦ elim (active_as s run_id) [
    | err e ↦ err e
    | ok run ↦ ok (record {
      run_id = run.id;
      kind = run.kind;
      deadline = after_start now s.budgets.deadline_secs;
    })
  ]
]

-- `deadline.is_some_and(|d| now > started + d)`, and the tests of a used amount against a bound.
abbrev pub past : Option ℕ → ℕ → ℕ → Bool
past none started now = false
past (some d) started now = ltb (add64 started d) now

abbrev pub over : Option ℕ → ℕ → Bool
over none used = false
over (some b) used = ltb b used

abbrev pub reached : Option ℕ → ℕ → Bool
reached none used = false
reached (some b) used = leb b used

unfoldable pub check_child : ChildRun → ℕ → ℕ → SchedulerResult (Unit {0})
check_child c run_id now =
    if past c.budgets.deadline_secs c.started_at_secs now
    then err (budget_exhausted (Bound.child_deadline run_id))
    else if over c.budgets.tokens c.usage.tokens
    then err (budget_exhausted (Bound.child_tokens run_id))
    else ok tt

unfoldable pub check_active : Budgets → RunUsage → ℕ → SchedulerResult (Unit {0})
check_active b u now =
    if past b.deadline_secs u.started_at_secs now
    then err (budget_exhausted Bound.deadline)
    else if reached b.tokens u.tokens
    then err (budget_exhausted Bound.tokens)
    else if reached b.tools u.tools
    then err (budget_exhausted Bound.tools)
    else ok tt

unfoldable pub check_boundary : Scheduler → ℕ → ℕ → SchedulerResult (Unit {0})
unfolding active_as check_child check_active
check_boundary s run_id now = elim (lookup run_id s.children) [
  | some c ↦ check_child c run_id now
  | none ↦ elim (active_as s run_id) [
    | err e ↦ err e
    | ok run ↦ check_active s.budgets run.usage now
  ]
]

-- The slot of the child that closed last.
abbrev pub closed_usage : Option (ℕ × RunUsage) → ℕ → Option RunUsage
closed_usage none run_id = none
closed_usage (some (id, usage)) run_id = if id == run_id then some usage else none

unfoldable pub current_usage : Scheduler → ℕ → RunUsage
unfolding active_as
current_usage s run_id = elim (lookup run_id s.children) [
  | some c ↦ c.usage
  | none ↦ elim (closed_usage s.last_child_usage run_id) [
    | some usage ↦ usage
    | none ↦ elim (active_as s run_id) [ err e ↦ no_usage 0 | ok run ↦ run.usage ]
  ]
]

unfoldable pub add_usage : RunUsage → RunUsage → RunUsage
add_usage u v = record u {
  tokens = add64 u.tokens v.tokens;
  tools = add64 u.tools v.tools;
  children = add64 u.children v.children;
}

unfoldable pub record_usage : Scheduler → ℕ → RunUsage → Scheduler × SchedulerResult (Unit {0})
unfolding active_as add_usage
record_usage s run_id usage = elim (lookup run_id s.children) [
  | some c ↦ (
    record s { children = insert run_id (record c { usage = add_usage c.usage usage }) s.children },
    ok tt,
  )
  | none ↦ elim (active_as s run_id) [
    | err e ↦ (s, err e)
    | ok run ↦
        (record s { active = some (record run { usage = add_usage run.usage usage }) }, ok tt)
  ]
]

unfoldable pub spawn_child : Scheduler → ℕ → Budgets → ℕ → ℕ → Scheduler × SchedulerResult ℕ
unfolding active_as
spawn_child s parent budgets run_id now = elim (active_as s parent) [
  | err e ↦ (s, err e)
  | ok run ↦ (
    record s {
      children =
          insert run_id
            (record {
              run_id = run_id;
              parent = parent;
              kind = child;
              budgets = budgets;
              started_at_secs = now;
              usage = no_usage now;
            })
            s.children;
    },
    ok run_id,
  )
]

unfoldable pub run_kind : Scheduler → ℕ → Option RunKind
run_kind s run_id = elim (lookup run_id s.runs) [
  | some kind ↦ some kind
  | none ↦ elim (lookup run_id s.children) [ none ↦ none | some c ↦ some c.kind ]
]
