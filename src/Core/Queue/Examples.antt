-- ===== src/Core/Queue/Examples.antt =====
-- The durability queue of crates/kanbei-core/src/queue.rs on a short run of senders and worker.
use kanbei.Base.{ℕ, ◌≡◌, refl, ◌++◌, none, [], ◌∷◌, List}
use kanbei.Core.Queue.{
  Queue, Job, Reach, start, enqueue, send_flush, work, enqueues, flushes, works, here, next,
}
use kanbei.Core.Queue.Barrier.{Reach-fifo, flush-barrier, ops, waits_for}

abbrev one_sent : Queue ℕ
one_sent = enqueue 5 start

abbrev two_sent : Queue ℕ
two_sent = enqueue 6 (send_flush 1 one_sent)

abbrev one_run : Queue ℕ
one_run = work (Job.op 5) (Job.flush 1 ∷ Job.op 6 ∷ []) none two_sent

abbrev acknowledged : Queue ℕ
acknowledged = work (Job.flush 1) (Job.op 6 ∷ []) none one_run

steps : Reach (send_flush 1 one_sent) acknowledged
unfolding enqueue send_flush work start
steps =
    next (next (next here (enqueues 6)) (works (Job.op 5) (Job.flush 1 ∷ Job.op 6 ∷ []) none refl))
      (works (Job.flush 1) (Job.op 6 ∷ []) none refl)

Reach-fifo_example : acknowledged.sent ≡ acknowledged.run ++ ops acknowledged.jobs
unfolding enqueue send_flush work start
Reach-fifo_example = Reach-fifo (
    next
      (next (next (next (next here (enqueues 5)) (flushes 1)) (enqueues 6))
        (works (Job.op 5) (Job.flush 1 ∷ Job.op 6 ∷ []) none refl))
      (works (Job.flush 1) (Job.op 6 ∷ []) none refl))

flush-barrier_example : (rest : List ℕ) × (acknowledged.run ≡ one_sent.sent ++ rest)
unfolding enqueue send_flush work start waits_for
flush-barrier_example = flush-barrier 1 (next here (enqueues 5)) refl refl steps refl
