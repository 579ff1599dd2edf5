-- ===== src/Scheduler/Queueing.antt =====
-- The default wake policy of crates/kanbei-scheduler/src/lib.rs as a choice of one class of the
-- pending triggers, and the requeueing of the others.
use mathlib.Core.List.{append-nil, append_assoc}
use kanbei.Base.{
  ℕ, ◌≡◌, ◌≢◌, refl, sym, ◌∙◌, ap, All-of, keep-true, keep-keep, ◌++◌, ◌&&◌, Bool, true, false, not,
  Option, none, some, List, [], ◌∷◌, arith, if◌then◌else◌, is_empty, keep, any, All, All-mono,
  keep-congr,
}
use kanbei.Scheduler.Types.{
  RunKind, cognition_step, responder_turn, Trigger, TriggerKind, user_message, new_causal_event,
  manual_resume, WakeBatch, kind_eq, trigger_eq, trigger_eq_iff,
}
use kanbei.Scheduler.Policy.{Groups, group, add_to_group, batch_for, coalesce, priority}
use kanbei.Scheduler.Wake.{best_batch, losers}

abbrev pub is_kind : TriggerKind → Trigger → Bool
is_kind k t = kind_eq t.kind k

-- Neither a user message, nor a causal event, nor a manual resume.
abbrev pub is_other : Trigger → Bool
is_other t =
    not (is_kind user_message t)
    && (not (is_kind new_causal_event t) && not (is_kind manual_resume t))

grouped : Groups → List Trigger → Groups
grouped g ts = record {
  user = g.user ++ keep (is_kind user_message) ts;
  causal = g.causal ++ keep (is_kind new_causal_event) ts;
  manual = g.manual ++ keep (is_kind manual_resume) ts;
  other = g.other ++ keep is_other ts;
}

group-eq : (g : Groups) (ts : List Trigger) → group g ts ≡ grouped g ts
unfolding group grouped keep kind_eq
group-eq g [] = simp append-nil
group-eq g (t ∷ ts) = ground (
  arith,
  group-eq (add_to_group t t.kind g) ts,
  append_assoc g.user (t ∷ []) (keep (is_kind user_message) ts),
  append_assoc g.causal (t ∷ []) (keep (is_kind new_causal_event) ts),
  append_assoc g.manual (t ∷ []) (keep (is_kind manual_resume) ts),
  append_assoc g.other (t ∷ []) (keep is_other ts),
)

-- The class of triggers that the default policy wakes for: user messages before all else, then manual
-- resumes, then causal events, then the rest; with the kind of run that it starts.
pub data Class : Type 0 where
  users manuals causals others : Class

abbrev pub in_class : Class → Trigger → Bool
in_class users t = is_kind user_message t
in_class manuals t = is_kind manual_resume t
in_class causals t = is_kind new_causal_event t
in_class others t = is_other t

abbrev pub class_kind : Class → RunKind
class_kind users = responder_turn
class_kind manuals = cognition_step
class_kind causals = cognition_step
class_kind others = cognition_step

abbrev pub class_batch : Class → List Trigger → WakeBatch
class_batch c ts = record { kind = class_kind c; triggers = keep (in_class c) ts }

abbrev pub first_class : List Trigger → Option Class
first_class ts =
    if not (is_empty (keep (in_class users) ts))
    then some users
    else if not (is_empty (keep (in_class manuals) ts))
    then some manuals
    else if not (is_empty (keep (in_class causals) ts))
    then some causals
    else if not (is_empty (keep (in_class others) ts))
    then some others
    else none

abbrev pub ranked : List Trigger → Option Class → Option (ℕ × WakeBatch)
ranked ts none = none
ranked ts (some c) = some (priority (class_kind c), class_batch c ts)

best-groups :
    (m u c o : List Trigger)
    → best_batch priority none (
        batch_for cognition_step m
        ++ (batch_for responder_turn u
            ++ (batch_for cognition_step c ++ batch_for cognition_step o)))
      ≡ (if not (is_empty u)
          then some (3, record { kind = responder_turn; triggers = u })
          else if not (is_empty m)
          then some (2, record { kind = cognition_step; triggers = m })
          else if not (is_empty c)
          then some (2, record { kind = cognition_step; triggers = c })
          else if not (is_empty o)
          then some (2, record { kind = cognition_step; triggers = o })
          else none)
unfolding best_batch batch_for priority
best-groups m u c o = ground arith

pub best-coalesce :
    (ts : List Trigger) → best_batch priority none (coalesce ts) ≡ ranked ts (first_class ts)
unfolding coalesce priority grouped
best-coalesce ts = rw (group-eq _ ts) (
    best-groups (keep (in_class manuals) ts) (keep (in_class users) ts) (keep (in_class causals) ts)
      (keep (in_class others) ts)
    ∙ ground arith)

-- Some class has a member as soon as there is a trigger.
pub first_class-cons : (t : Trigger) (ts : List Trigger) → first_class (t ∷ ts) ≢ none
unfolding keep kind_eq
first_class-cons t ts = ground arith

-- The class that is chosen has a member.
pub first_class-nonempty :
    (ts : List Trigger) (c : Class)
    → first_class ts ≡ some c
    → is_empty (keep (in_class c) ts) ≡ false
first_class-nonempty ts users h = ground arith
first_class-nonempty ts manuals h = ground arith
first_class-nonempty ts causals h = ground arith
first_class-nonempty ts others h = ground arith

abbrev unlike : List Trigger → Trigger → Bool
unlike ts x = not (any (trigger_eq x) ts)

losers-eq : (all ts : List Trigger) → losers all ts ≡ keep (unlike ts) all
unfolding losers any
losers-eq all [] = sym (keep-true all)
losers-eq all (t ∷ ts) =
    losers-eq (keep (λ x. not (trigger_eq x t)) all) ts
    ∙ keep-keep (unlike ts) (λ x. not (trigger_eq x t)) all
    ∙ keep-congr _ _ all (All-of _ (λ x. ground arith) all)

-- Equal triggers lie in one class.
any-class :
    (c : Class) (x : Trigger) (ts : List Trigger)
    → any (trigger_eq x) (keep (in_class c) ts) ≡ (in_class c x && any (trigger_eq x) ts)
unfolding any keep
any-class c x [] = ground arith
any-class c x (t ∷ ts) = ground (
  arith,
  any-class c x ts,
  λ (h : trigger_eq x t ≡ true). ap (in_class c) ((trigger_eq_iff x t).0 h),
)

any_self : (ts : List Trigger) → All (λ x. any (trigger_eq x) ts ≡ true) ts
unfolding any
any_self [] = tt
any_self (t ∷ ts) = (
  ground (arith, (trigger_eq_iff t t).1 refl),
  All-mono _ _ (λ x h. ground arith) ts (any_self ts),
)

-- Dropping from the queue every trigger that equals one of the batch leaves the other classes.
pub losers-class :
    (c : Class) (ts : List Trigger)
    → losers ts (keep (in_class c) ts) ≡ keep (λ x. not (in_class c x)) ts
losers-class c ts =
    losers-eq ts (keep (in_class c) ts)
    ∙ keep-congr _ _ ts (All-mono _ _ (λ x h. ground (arith, any-class c x ts)) ts (any_self ts))
