-- ===== src/Scheduler/Policy.antt =====
-- The wake policy of crates/kanbei-scheduler/src/lib.rs: the trait `SchedulerPolicy`, and the
-- built-in `DefaultPolicy`, which groups the pending triggers by kind.
use kanbei.Base.{ℕ, ◌++◌, List, [], ◌∷◌, String, is_empty, if◌then◌else◌}
use kanbei.Scheduler.Types.{
  RunKind, cognition_step, responder_turn, child, Trigger, TriggerKind, user_message,
  new_causal_event, manual_resume, WakeBatch,
}

pub record SchedulerPolicy : Type 0 where
  pub name : String
  pub coalesce : List Trigger → List WakeBatch
  pub priority : RunKind → ℕ

-- The four vectors that `coalesce` fills.
pub record Groups : Type 0 where
  pub user : List Trigger
  pub causal : List Trigger
  pub manual : List Trigger
  pub other : List Trigger

unfoldable pub add_to_group : Trigger → TriggerKind → Groups → Groups
add_to_group t user_message g = record g { user = g.user ++ t ∷ [] }
add_to_group t new_causal_event g = record g { causal = g.causal ++ t ∷ [] }
add_to_group t manual_resume g = record g { manual = g.manual ++ t ∷ [] }
add_to_group t _ g = record g { other = g.other ++ t ∷ [] }

unfoldable pub group : Groups → List Trigger → Groups
unfolding add_to_group
group g [] = g
group g (t ∷ ts) = group (add_to_group t t.kind g) ts

-- `if !triggers.is_empty() { out.push(batch_for(kind, &triggers)) }`.
unfoldable pub batch_for : RunKind → List Trigger → List WakeBatch
batch_for kind triggers =
    if is_empty triggers then [] else record { kind = kind; triggers = triggers } ∷ []

unfoldable pub coalesce : List Trigger → List WakeBatch
unfolding batch_for
coalesce pending =
    let g = group (record { user = []; causal = []; manual = []; other = [] }) pending in
    batch_for cognition_step g.manual
    ++ (batch_for responder_turn g.user
        ++ (batch_for cognition_step g.causal ++ batch_for cognition_step g.other))

unfoldable pub priority : RunKind → ℕ
priority responder_turn = 3
priority cognition_step = 2
priority child = 1

abbrev pub default_policy : SchedulerPolicy
default_policy = record { name = "builtin-default"; coalesce = coalesce; priority = priority }
