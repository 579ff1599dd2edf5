-- ===== src/Core/Queue.antt =====
-- The durability queue of crates/kanbei-core/src/queue.rs: a channel of jobs, a worker that takes them
-- in order, and the slot of the first error. The jobs of the senders and the turns of the worker
-- interleave freely: a step relation.
mod Examples
pub mod Barrier
use kanbei.Base.{ℕ, ◌≡◌, ◌++◌, Option, none, some, List, [], ◌∷◌}

-- Only the first error is kept.
unfoldable pub keep_error : Option ℕ → Option ℕ → Option ℕ
keep_error (some e) outcome = some e
keep_error none outcome = outcome

module _ {ℓ} (Op : Type ℓ) where
  -- A flush carries the sender of its acknowledgement, a number.
  pub data Job : Type ℓ where
    op : Op → Job
    flush : ℕ → Job

  -- `sent` and `run` are the operations that were enqueued and that the worker has run, in order, and
  -- `acked` the flushes that it has acknowledged; the program has no such fields.
  pub record Queue : Type ℓ where
    pub jobs : List Job
    pub errors : Option ℕ
    pub sent : List Op
    pub run : List Op
    pub acked : List ℕ

module _ {ℓ} {Op : Type ℓ} where
  unfoldable pub start : Queue Op
  start = record { jobs = []; errors = none; sent = []; run = []; acked = [] }

  -- `enqueue`.
  unfoldable pub enqueue : Op → Queue Op → Queue Op
  enqueue o q = record q { jobs = q.jobs ++ Job.op o ∷ []; sent = q.sent ++ o ∷ [] }

  -- The send of `flush`; the answer is read once the flush is acknowledged.
  unfoldable pub send_flush : ℕ → Queue Op → Queue Op
  send_flush id q = record q { jobs = q.jobs ++ Job.flush id ∷ [] }

  -- `errors.lock().unwrap().take()`, the end of `flush`.
  unfoldable pub take_error : Queue Op → Queue Op × Option ℕ
  take_error q = (record q { errors = none }, q.errors)

  -- One turn of `worker_loop`; `outcome` is the error of the operation, if it fails.
  unfoldable pub work : Job Op → List (Job Op) → Option ℕ → Queue Op → Queue Op
  unfolding keep_error
  work (Job.op o) rest outcome q = record q {
    jobs = rest;
    errors = keep_error q.errors outcome;
    run = q.run ++ o ∷ [];
  }
  work (Job.flush id) rest outcome q = record q { jobs = rest; acked = id ∷ q.acked }

  -- What may happen next.
  pub data Step (q : Queue Op) : Queue Op → Type ℓ where
    enqueues : (o : Op) → Step q (enqueue o q)
    flushes : (id : ℕ) → Step q (send_flush id q)
    takes : Step q (take_error q).0
    works :
        (j : Job Op) (rest : List (Job Op)) (outcome : Option ℕ)
        → q.jobs ≡ j ∷ rest
        → Step q (work j rest outcome q)

  pub data Reach (q : Queue Op) : Queue Op → Type ℓ where
    here : Reach q q
    next : {r t : Queue Op} → Reach q r → Step r t → Reach q t
