-- ===== src/Core/Queue/Barrier.antt =====
-- The promises of crates/kanbei-core/src/queue.rs: operations run in the order in which they were sent,
-- and a flush is acknowledged only after all that was sent before it has run.
use mathlib.Core.List.{append_assoc, append-nil}
use kanbei.Base.{
  ℕ, ◌≡◌, refl, sym, ap, ◌∙◌, ◌⊎◌, inl, inr, ◌++◌, ◌==◌, ◌||◌, Bool, true, false, Option, List, [],
  ◌∷◌, arith, contains,
}
use kanbei.Core.Queue.{
  Queue, Job, Step, Reach, enqueues, flushes, takes, works, here, next, start, enqueue, send_flush,
  take_error, work,
}

module _ {ℓ} {Op : Type ℓ} where
  unfoldable pub ops : List (Job Op) → List Op
  ops [] = []
  ops (Job.op o ∷ js) = o ∷ ops js
  ops (Job.flush id ∷ js) = ops js

  ops-append : (js ks : List (Job Op)) → ops (js ++ ks) ≡ ops js ++ ops ks
  unfolding ops
  ops-append [] ks = refl
  ops-append (Job.op o ∷ js) ks = ap (◌∷◌ o) (ops-append js ks)
  ops-append (Job.flush id ∷ js) ks = ops-append js ks

  -- What has run, and what waits, is what was sent, in order.
  abbrev pub IsFifo : Queue Op → Type ℓ
  IsFifo q = q.sent ≡ q.run ++ ops q.jobs

  Step-IsFifo : {q r : Queue Op} → Step q r → IsFifo q → IsFifo r
  unfolding enqueue send_flush take_error work ops
  Step-IsFifo {q} (enqueues o) h =
      rw ops-append (ap (λ l. l ++ o ∷ []) h ∙ append_assoc q.run (ops q.jobs) (o ∷ []))
  Step-IsFifo {q} (flushes id) h = rw (ops-append, append-nil) h
  Step-IsFifo takes h = h
  Step-IsFifo {q} (works (Job.op o) rest outcome e) h =
      h ∙ ap (λ js. q.run ++ ops js) e ∙ sym (append_assoc q.run (o ∷ []) (ops rest))
  Step-IsFifo {q} (works (Job.flush id) rest outcome e) h = h ∙ ap (λ js. q.run ++ ops js) e

  Reach-IsFifo : {q r : Queue Op} → IsFifo q → Reach q r → IsFifo r
  Reach-IsFifo h here = h
  Reach-IsFifo h (next r s) = Step-IsFifo s (Reach-IsFifo h r)

  -- Whatever the interleaving of senders and worker, the operations that have run, followed by those
  -- that wait in the channel, are the operations that were sent, in the order of sending.
  pub Reach-fifo : {q : Queue Op} → Reach start q → q.sent ≡ q.run ++ ops q.jobs
  unfolding start ops
  Reach-fifo r = Reach-IsFifo refl r

  unfoldable pub waits_for : ℕ → List (Job Op) → Bool
  waits_for id [] = false
  waits_for id (Job.op o ∷ js) = waits_for id js
  waits_for id (Job.flush j ∷ js) = (j == id) || waits_for id js

  -- The flush `id` is still in the channel, with what is left of `target` before it.
  record Waits (id : ℕ) (target : List Op) (q : Queue Op) : Type ℓ where
    before : List (Job Op)
    after : List (Job Op)
    jobs : q.jobs ≡ before ++ Job.flush id ∷ after
    left : target ≡ q.run ++ ops before
    first : waits_for id before ≡ false
    silent : contains id q.acked ≡ false

  abbrev Covered : ℕ → List Op → Queue Op → Type ℓ
  Covered id target q = Waits id target q ⊎ ((rest : List Op) × (q.run ≡ target ++ rest))

  work-Covered :
      {id : ℕ} {target : List Op} (q : Queue Op) (j : Job Op) (rest : List (Job Op))
      (outcome : Option ℕ) (before after : List (Job Op))
      → q.jobs ≡ j ∷ rest
      → q.jobs ≡ before ++ Job.flush id ∷ after
      → target ≡ q.run ++ ops before
      → waits_for id before ≡ false
      → contains id q.acked ≡ false
      → Covered id target (work j rest outcome q)
  unfolding work ops waits_for
  work-Covered q (Job.op o) rest outcome [] after e f l w s = absurd (cc)
  work-Covered {target = target} q (Job.flush j) rest outcome [] after e f l w s =
      inr ([], sym (append-nil target ∙ l ∙ append-nil q.run))
  work-Covered q (Job.op o) rest outcome (Job.flush k ∷ before) after e f l w s = absurd (cc)
  work-Covered q (Job.op o) rest outcome (Job.op p ∷ before) after e f l w s = inl (record {
    before = before;
    after = after;
    jobs = cc;
    left =
        l
        ∙ sym (append_assoc q.run (p ∷ []) (ops before))
        ∙ ap (λ x. (q.run ++ x ∷ []) ++ ops before) (cc);
    first = w;
    silent = s;
  })
  work-Covered q (Job.flush j) rest outcome (Job.op p ∷ before) after e f l w s = absurd (cc)
  work-Covered {id} q (Job.flush j) rest outcome (Job.flush k ∷ before) after e f l w s =
      let same : j ≡ k = cc in
      inl (record {
        before = before;
        after = after;
        jobs = cc;
        left = l;
        first = ground arith;
        silent = ground arith;
      })

  work-run :
      (q : Queue Op) (target : List Op) (j : Job Op) (rest : List (Job Op)) (outcome : Option ℕ)
      → ((more : List Op) × (q.run ≡ target ++ more))
      → (more : List Op) × ((work j rest outcome q).run ≡ target ++ more)
  unfolding work
  work-run q target (Job.op o) rest outcome (more, e) =
      (more ++ o ∷ [], ap (λ l. l ++ o ∷ []) e ∙ append_assoc target more (o ∷ []))
  work-run q target (Job.flush id) rest outcome k = k

  Waits-snoc :
      {id : ℕ} {target : List Op} (q : Queue Op) (j : Job Op)
      → Waits id target q
      → Waits id target (record q { jobs = q.jobs ++ j ∷ [] })
  Waits-snoc {id} q j w = record {
    before = w.before;
    after = w.after ++ j ∷ [];
    jobs = ap (λ js. js ++ j ∷ []) w.jobs ∙ append_assoc w.before (Job.flush id ∷ w.after) (j ∷ []);
    left = w.left;
    first = w.first;
    silent = w.silent;
  }

  Step-Covered :
      {id : ℕ} {target : List Op} {q r : Queue Op}
      → Step q r
      → Covered id target q
      → Covered id target r
  unfolding enqueue send_flush take_error
  Step-Covered {q = q} (enqueues o) (inl w) =
      let k = Waits-snoc q (Job.op o) w in
      inl (record {
        before = k.before;
        after = k.after;
        jobs = k.jobs;
        left = k.left;
        first = k.first;
        silent = k.silent;
      })
  Step-Covered (enqueues o) (inr k) = inr k
  Step-Covered {q = q} (flushes id) (inl w) = inl (Waits-snoc q (Job.flush id) w)
  Step-Covered (flushes id) (inr k) = inr k
  Step-Covered takes (inl w) = inl (record {
    before = w.before;
    after = w.after;
    jobs = w.jobs;
    left = w.left;
    first = w.first;
    silent = w.silent;
  })
  Step-Covered takes (inr k) = inr k
  Step-Covered {q = q} (works j rest outcome e) (inl w) =
      work-Covered q j rest outcome w.before w.after e w.jobs w.left w.first w.silent
  Step-Covered {target = target} {q = q} (works j rest outcome e) (inr k) =
      inr (work-run q target j rest outcome k)

  Reach-Covered :
      {id : ℕ} {target : List Op} {q r : Queue Op}
      → Covered id target q
      → Reach q r
      → Covered id target r
  Reach-Covered c here = c
  Reach-Covered c (next r s) = Step-Covered s (Reach-Covered c r)

  -- An acknowledged flush is a barrier: from any reachable state in which the flush is neither waiting
  -- nor acknowledged, after its send and whatever follows, if the worker has acknowledged it, then all
  -- that had been sent before it has run, first and in order.
  pub flush-barrier :
      {q r : Queue Op} (id : ℕ)
      → Reach start q
      → waits_for id q.jobs ≡ false
      → contains id q.acked ≡ false
      → Reach (send_flush id q) r
      → contains id r.acked ≡ true
      → (rest : List Op) × (r.run ≡ q.sent ++ rest)
  unfolding send_flush
  flush-barrier {q} {r} id reached fresh silent later acked =
      elim (Reach-Covered
        (inl (record {
          before = q.jobs;
          after = [];
          jobs = refl;
          left = Reach-fifo reached;
          first = fresh;
          silent = silent;
        }))
        later) [ inl w ↦ absurd (ground (arith, w.silent)) | inr covered ↦ covered ]
