-- ===== src/Log/Durable.antt =====
-- What an answer of `append` of crates/kanbei-log/src/lib.rs means for the file and for the durability queue.
use kanbei.Base.{
  ◌++◌, ◌∷◌, [], ℕ, ◌≡◌, refl, ◌⊎◌, inl, inr, true, Option, none, some, List, length, arith,
  is_empty, Option-cases, Bool-cases,
}
use kanbei.Objects.{fsync_frame}
use kanbei.Core.Envelope.{Envelope}
use kanbei.Log.Types.{Line, Meta, MetaBody, Profile, FramePlan, AppendLog, AppendError, ok, err}
use kanbei.Log.Writer.{check_events, next_meta, plan_of, write_frame, append, acknowledge, flush}

module _ (to_line : Envelope → Line) (frame_hash : MetaBody → List Line → ℕ)
    (frame_size : Meta → List Line → ℕ) where
  -- A strict append that is acknowledged has waited for all that the queue was sent, its own sync included.
  pub append-strict :
      (log : AppendLog) (events : List Envelope) (now : ℕ) (outcome : Option ℕ) (plan : FramePlan)
      → (append to_line frame_hash frame_size log events Profile.strict now outcome).1 ≡ ok plan
      → let after =
          (append to_line frame_hash frame_size log events Profile.strict now outcome).0 in
        (after.flushed ≡ length after.queue)
        × (outcome ≡ none)
        × (after.file
            ≡ (write_frame to_line frame_hash frame_size log events
                (next_meta to_line frame_hash frame_size log events now)).file)
  unfolding append acknowledge flush
  append-strict log events now outcome plan h = elim (Bool-cases (is_empty events)) [
    | inl nothing ↦ absurd (ground (arith, h, nothing))
    | inr something ↦ elim (Option-cases (check_events log.seq 0 events)) [
      | inr (e, refused) ↦ absurd (ground (arith, h, something, refused))
      | inl taken ↦ elim (Option-cases outcome) [
        | inr (e, failed) ↦ absurd (ground (arith, h, something, taken, failed))
        | inl flushed ↦ rw (something, taken, flushed) (refl, refl, refl)
      ]
    ]
  ]

  -- Whatever the profile, a batch that is empty, or that has an envelope which is invalid or out of
  -- sequence, is refused, and the log stays as it was.
  pub append-refused :
      (log : AppendLog) (events : List Envelope) (profile : Profile) (now : ℕ) (outcome : Option ℕ)
      → (is_empty events ≡ true) ⊎ ((e : AppendError) × (check_events log.seq 0 events ≡ some e))
      → ((append to_line frame_hash frame_size log events profile now outcome).0 ≡ log)
        × ((e : AppendError) × ((append to_line frame_hash frame_size log events profile now
                outcome).1
              ≡ err e))
  unfolding append
  append-refused log events profile now outcome (inl h) =
      rw h (refl, (AppendError.empty_batch, refl))
  append-refused log events profile now outcome (inr (e, h)) = elim (Bool-cases (is_empty events)) [
    | inl nothing ↦ rw nothing (refl, (AppendError.empty_batch, refl))
    | inr something ↦ rw (something, h) (refl, (e, refl))
  ]

  acknowledge-queue :
      (profile : Profile) (outcome : Option ℕ) (plan : FramePlan) (log : AppendLog)
      → (acknowledge profile outcome plan log).0.queue ≡ log.queue
  unfolding acknowledge flush
  acknowledge-queue Profile.fast outcome plan log = refl
  acknowledge-queue Profile.balanced outcome plan log = refl
  acknowledge-queue Profile.strict none plan log = refl
  acknowledge-queue Profile.strict (some e) plan log = refl

  pub append-queue :
      (log : AppendLog) (events : List Envelope) (profile : Profile) (now : ℕ) (outcome : Option ℕ)
      (plan : FramePlan)
      → (append to_line frame_hash frame_size log events profile now outcome).1 ≡ ok plan
      → (append to_line frame_hash frame_size log events profile now outcome).0.queue
        ≡ log.queue ++ fsync_frame log.seq ∷ []
  unfolding append write_frame next_meta
  append-queue log events profile now outcome plan h = elim (Bool-cases (is_empty events)) [
    | inl nothing ↦ absurd (ground (arith, h, nothing))
    | inr something ↦ elim (Option-cases (check_events log.seq 0 events)) [
      | inr (e, refused) ↦ absurd (ground (arith, h, something, refused))
      | inl taken ↦
          let m = next_meta to_line frame_hash frame_size log events now in
          rw (something, taken)
            (acknowledge-queue profile outcome (plan_of to_line frame_hash frame_size m events)
              (write_frame to_line frame_hash frame_size log events m))
    ]
  ]
