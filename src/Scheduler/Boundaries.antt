-- ===== src/Scheduler/Boundaries.antt =====
-- Budgets at host-command boundaries, in crates/kanbei-scheduler/src/lib.rs: what is recorded command
-- by command adds up, and the check passes exactly while the sums are under the budgets.
use kanbei.Base.{
  ℕ, ◌+◌, ◌≤◌, ◌<◌, ◌≡◌, ◌↔◌, refl, ◌∙◌, ap, subst, Option, none, some, List, [], ◌∷◌, arith, add64,
  add64-eq, u64_mod,
}
use kanbei.Base.Map.{lookup, lookup-insert}
use kanbei.Scheduler.Types.{RunUsage, Budgets, ChildRun, ok, child}
use kanbei.Scheduler.State.{Scheduler, ActiveRun, no_usage}
use kanbei.Scheduler.Usage.{
  record_usage, check_boundary, add_usage, spawn_child, check_active, check_child,
}

-- The usage of several host commands, recorded one after the other.
unfoldable pub use_all : Scheduler → ℕ → List RunUsage → Scheduler
use_all s id [] = s
use_all s id (u ∷ us) = use_all (record_usage s id u).0 id us

unfoldable pub total : (RunUsage → ℕ) → List RunUsage → ℕ
total f [] = 0
total f (u ∷ us) = f u + total f us

-- No limit, or one that the amount has not reached; no limit, or one that it has not passed.
abbrev pub Under : Option ℕ → ℕ → Type 0
Under none n = Unit
Under (some b) n = n < b

abbrev pub AtMost : Option ℕ → ℕ → Type 0
AtMost none n = Unit
AtMost (some b) n = n ≤ b

-- The deadline from the start, if there is one, is not past.
abbrev pub InTime : Option ℕ → ℕ → ℕ → Type 0
InTime none started now = Unit
InTime (some d) started now = now ≤ add64 started d

abbrev plus : RunUsage → List RunUsage → RunUsage
plus u us = record {
  tokens = u.tokens + total (λ v. v.tokens) us;
  tools = u.tools + total (λ v. v.tools) us;
  children = u.children + total (λ v. v.children) us;
  started_at_secs = u.started_at_secs;
}

-- The sums stay within a `u64`.
pub record FitsWord (u : RunUsage) (us : List RunUsage) : Type 0 where
  pub tokens : u.tokens + total (λ v. v.tokens) us < u64_mod
  pub tools : u.tools + total (λ v. v.tools) us < u64_mod
  pub children : u.children + total (λ v. v.children) us < u64_mod

add_usage-eq :
    (u v : RunUsage)
    → u.tokens + v.tokens < u64_mod
    → u.tools + v.tools < u64_mod
    → u.children + v.children < u64_mod
    → add_usage u v ≡ plus u (v ∷ [])
unfolding add_usage total
add_usage-eq u v h k l =
    ground
      (arith, add64-eq u.tokens v.tokens, add64-eq u.tools v.tools, add64-eq u.children v.children)

plus-cons : (u v : RunUsage) (us : List RunUsage) → plus (plus u (v ∷ [])) us ≡ plus u (v ∷ us)
unfolding total
plus-cons u v us = ground arith

-- The state with another usage of its active run.
abbrev with_usage : Scheduler → ActiveRun → RunUsage → Scheduler
with_usage s r u = record s { active = some (record r { usage = u }) }

with_usage_self :
    (s : Scheduler) (r : ActiveRun) → s.active ≡ some r → s ≡ with_usage s r (plus r.usage [])
unfolding total
with_usage_self s r e =
    let same : r.usage ≡ plus r.usage [] = ground arith in
    (λ i. record s { active = e i }) ∙ ap (with_usage s r) same

record_usage-active :
    (s : Scheduler) (r : ActiveRun) (u : RunUsage)
    → lookup r.id s.children ≡ none
    → s.active ≡ some r
    → (record_usage s r.id u).0 ≡ with_usage s r (add_usage r.usage u)
unfolding record_usage
record_usage-active s r u h e = ground arith

use_all-active :
    (s : Scheduler) (r : ActiveRun) (us : List RunUsage)
    → lookup r.id s.children ≡ none
    → s.active ≡ some r
    → FitsWord r.usage us
    → use_all s r.id us ≡ with_usage s r (plus r.usage us)
unfolding use_all total
use_all-active s r [] h e f = with_usage_self s r e
use_all-active s r (u ∷ us) h e f =
    let next : RunUsage = plus r.usage (u ∷ []) in
    ap (λ (t : Scheduler). use_all t r.id us)
      (record_usage-active s r u h e
        ∙ ap (with_usage s r) (add_usage-eq r.usage u (omega arith) (omega arith) (omega arith)))
    ∙ use_all-active (with_usage s r next) (record r { usage = next }) us h refl
        (record { tokens = omega arith; tools = omega arith; children = omega arith })
    ∙ ap (with_usage s r) (plus-cons r.usage u us)

check_active-ok_iff :
    (d t k c : Option ℕ) (u : RunUsage) (now : ℕ)
    → (check_active (record { deadline_secs = d; tokens = t; tools = k; children = c }) u now
        ≡ ok tt)
      ↔ (InTime d u.started_at_secs now × Under t u.tokens × Under k u.tools)
unfolding check_active
check_active-ok_iff none none none c u now = (λ h. ground arith, λ h. ground arith)
check_active-ok_iff none none (some k) c u now = (λ h. ground arith, λ h. ground arith)
check_active-ok_iff none (some t) none c u now = (λ h. ground arith, λ h. ground arith)
check_active-ok_iff none (some t) (some k) c u now = (λ h. ground arith, λ h. ground arith)
check_active-ok_iff (some d) none none c u now = (λ h. ground arith, λ h. ground arith)
check_active-ok_iff (some d) none (some k) c u now = (λ h. ground arith, λ h. ground arith)
check_active-ok_iff (some d) (some t) none c u now = (λ h. ground arith, λ h. ground arith)
check_active-ok_iff (some d) (some t) (some k) c u now = (λ h. ground arith, λ h. ground arith)

check_boundary-active :
    (s : Scheduler) (r : ActiveRun) (now : ℕ)
    → lookup r.id s.children ≡ none
    → s.active ≡ some r
    → check_boundary s r.id now ≡ check_active s.budgets r.usage now
unfolding check_boundary
check_boundary-active s r now h e = ground arith

-- After any commands of the active run have recorded their usage, the check at the boundary passes
-- exactly when the run is in time and the sums of its tokens and of its tool calls are under their
-- budgets (an absent limit is no bound), as long as the sums fit a `u64`.
pub check_boundary-use_all :
    (s : Scheduler) (r : ActiveRun) (us : List RunUsage) (now : ℕ)
    → lookup r.id s.children ≡ none
    → s.active ≡ some r
    → FitsWord r.usage us
    → (check_boundary (use_all s r.id us) r.id now ≡ ok tt) ↔ (
        InTime s.budgets.deadline_secs r.usage.started_at_secs now
        × Under s.budgets.tokens (r.usage.tokens + total (λ u. u.tokens) us)
        × Under s.budgets.tools (r.usage.tools + total (λ u. u.tools) us))
check_boundary-use_all s r us now h e f =
    let used : Scheduler = with_usage s r (plus r.usage us) in
    let b : Budgets = s.budgets in
    rw (use_all-active s r us h e f) (
      rw (check_boundary-active used (record r { usage = plus r.usage us }) now h refl)
        (check_active-ok_iff b.deadline_secs b.tokens b.tools b.children (plus r.usage us) now))

check_child-ok_iff :
    (d t k c : Option ℕ) (r : ChildRun) (id now : ℕ)
    → r.budgets ≡ record { deadline_secs = d; tokens = t; tools = k; children = c }
    → (check_child r id now ≡ ok tt) ↔ (InTime d r.started_at_secs now × AtMost t r.usage.tokens)
unfolding check_child
check_child-ok_iff none none k c r id now e = (λ h. ground arith, λ h. ground arith)
check_child-ok_iff none (some t) k c r id now e = (λ h. ground arith, λ h. ground arith)
check_child-ok_iff (some d) none k c r id now e = (λ h. ground arith, λ h. ground arith)
check_child-ok_iff (some d) (some t) k c r id now e = (λ h. ground arith, λ h. ground arith)

-- The record of a child that has used `u` since its start.
abbrev child_run : ActiveRun → Budgets → ℕ → ℕ → RunUsage → ChildRun
child_run parent b id now u = record {
  run_id = id;
  parent = parent.id;
  kind = child;
  budgets = b;
  started_at_secs = now;
  usage = add_usage (no_usage now) u;
}

spawn-use :
    (s : Scheduler) (parent : ActiveRun) (b : Budgets) (id now : ℕ) (u : RunUsage)
    → s.active ≡ some parent
    → lookup id (record_usage (spawn_child s parent.id b id now).0 id u).0.children
      ≡ some (child_run parent b id now u)
unfolding spawn_child record_usage
spawn-use s parent b id now u e = grind (arith, lookup-insert)

first_tokens :
    (now : ℕ) (u : RunUsage) → u.tokens < u64_mod → (add_usage (no_usage now) u).tokens ≡ u.tokens
unfolding add_usage
first_tokens now u f = add64-eq 0 u.tokens (omega arith) ∙ (omega arith)

-- A child that has been spawned under the active run and has recorded some usage passes its boundary
-- exactly when it is in time and has used at most its tokens: unlike the active run, it may reach its
-- token budget, and its tool calls are not bounded.
pub check_boundary-child :
    (s : Scheduler) (parent : ActiveRun) (b : Budgets) (id now later : ℕ) (u : RunUsage)
    → s.active ≡ some parent
    → u.tokens < u64_mod
    → (check_boundary (record_usage (spawn_child s parent.id b id now).0 id u).0 id later ≡ ok tt)
      ↔ (InTime b.deadline_secs now later × AtMost b.tokens u.tokens)
unfolding check_boundary
check_boundary-child s parent b id now later u e f =
    rw (spawn-use s parent b id now u e, check_boundary)
      (subst
        (λ (n : ℕ).
          (check_child (child_run parent b id now u) id later ≡ ok tt)
          ↔ (InTime b.deadline_secs now later × AtMost b.tokens n))
        (first_tokens now u f)
        (check_child-ok_iff b.deadline_secs b.tokens b.tools b.children
          (child_run parent b id now u) id later refl))
