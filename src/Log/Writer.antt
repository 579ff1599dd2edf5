-- ===== src/Log/Writer.antt =====
-- The writer of crates/kanbei-log/src/lib.rs. `to_line` (serde_json), `frame_hash` (blake3 over the
-- canonical bytes) and `frame_size` (the compressed length, zstd) are parameters; the clock and the
-- outcome of a flush are arguments; writes to the file succeed, and
-- it has no torn tail, which `recover` has cut off before.
use kanbei.Base.{
  ℕ, ◌+◌, ◌++◌, Option, none, some, List, [], ◌∷◌, map, if◌then◌else◌, ◌==◌, length, add64, sub64,
  is_empty,
}
use kanbei.Core.Envelope.{Envelope, validate}
use kanbei.Objects.{SyncOp, fsync_frame}
use kanbei.Log.Reader.{scan_tail}
use kanbei.Log.Types.{
  Line, Meta, MetaBody, meta_without_digest, Stored, LogFile, Profile, FramePlan, AppendLog,
  AppendError, empty_batch, invalid_envelope, wrong_seq, flush_failed, LogResult, ok, err,
  schema_version, new_prev,
}

-- The loop of `append` over its events.
unfoldable pub check_events : ℕ → ℕ → List Envelope → Option AppendError
unfolding validate add64
check_events seq i [] = none
check_events seq i (e ∷ es) =
    let rest = check_events seq (i + 1) es in
    elim (validate e) [
      | some reason ↦ some (invalid_envelope i reason)
      | none ↦ if e.seq == add64 seq i then rest else some (wrong_seq i e.seq (add64 seq i))
    ]

-- `flush`; the outcome is the error of the queue, if there is one.
unfoldable pub flush : Option ℕ → AppendLog → AppendLog × Option ℕ
flush outcome log = (record log { flushed = length log.queue }, outcome)

-- The flush that the profile asks for.
unfoldable pub acknowledge :
    Profile → Option ℕ → FramePlan → AppendLog → AppendLog × LogResult AppendError FramePlan
unfolding flush
acknowledge Profile.fast outcome plan log = (log, ok plan)
acknowledge Profile.balanced outcome plan log = (log, ok plan)
acknowledge Profile.strict outcome plan log = elim ((flush outcome log).1) [
  | none ↦ ((flush outcome log).0, ok plan)
  | some e ↦ ((flush outcome log).0, err (flush_failed e))
]

module _ (to_line : Envelope → Line) (frame_hash : MetaBody → List Line → ℕ)
    (frame_size : Meta → List Line → ℕ) where
  -- The metadata of the next frame.
  unfoldable pub next_meta : AppendLog → List Envelope → ℕ → Meta
  unfolding add64 sub64 meta_without_digest
  next_meta log events now =
      let blank : Meta = record {
        stream = log.stream;
        schema = schema_version;
        first_seq = log.seq;
        last_seq = sub64 (add64 log.seq (length events)) 1;
        count = length events;
        prev = log.prev;
        digest = 0;
        created_us = now;
      } in
      record blank { digest = frame_hash (meta_without_digest blank) (map to_line events) }

  -- The write of the frame, and the request to sync it.
  unfoldable pub write_frame : AppendLog → List Envelope → Meta → AppendLog
  unfolding add64
  write_frame log events m = record log {
    file = record log.file {
      stored =
          log.file.stored
          ++ record {
            len = frame_size m (map to_line events);
            content = some (record { meta = m; events = map to_line events });
          }
            ∷ [];
    };
    seq = add64 log.seq (length events);
    prev = m.digest;
    frames = log.frames + 1;
    queue = log.queue ++ fsync_frame m.first_seq ∷ [];
  }

  unfoldable pub plan_of : Meta → List Envelope → FramePlan
  plan_of m events = record {
    first_seq = m.first_seq;
    last_seq = m.last_seq;
    count = m.count;
    frame_len = frame_size m (map to_line events);
  }

  -- `append`.
  unfoldable pub append :
      AppendLog
      → List Envelope
      → Profile
      → ℕ
      → Option ℕ
      → AppendLog × LogResult AppendError FramePlan
  unfolding check_events next_meta write_frame plan_of acknowledge
  append log events profile now outcome =
      if is_empty events then (log, err empty_batch) else elim (check_events log.seq 0 events) [
        | some reason ↦ (log, err reason)
        | none ↦
            let m = next_meta log events now in
            acknowledge profile outcome (plan_of m events) (write_frame log events m)
      ]

-- The last complete frame.
unfoldable pub last_stored : List Stored → Option Stored
last_stored [] = none
last_stored (s ∷ []) = some s
last_stored (s ∷ t ∷ ss) = last_stored (t ∷ ss)

module _ (frame_hash : MetaBody → List Line → ℕ) where
  -- The number and the chain behind the last frame.
  unfoldable pub continue_after : Option Stored → Option (ℕ × ℕ)
  unfolding meta_without_digest add64
  continue_after none = some (1, new_prev)
  continue_after (some s) = elim s.content [
    | none ↦ none
    | some info ↦
        some (add64 info.meta.last_seq 1, frame_hash (meta_without_digest info.meta) info.events)
  ]

  -- `tail_state`; none is its error.
  unfoldable pub tail_state : LogFile → Option (ℕ × ℕ)
  unfolding scan_tail last_stored continue_after
  tail_state file = elim (scan_tail file) [
    | LogResult.err e ↦ none
    | LogResult.ok is_torn ↦ continue_after (last_stored file.stored)
  ]

  -- `open`, with what the queue has been sent by others.
  unfoldable pub open_log : LogFile → ℕ → List SyncOp → ℕ → Option AppendLog
  unfolding tail_state
  open_log file stream queue flushed = elim (tail_state file) [
    | none ↦ none
    | some st ↦ some (record {
      file = file;
      stream = stream;
      seq = st.0;
      prev = st.1;
      frames = 0;
      queue = queue;
      flushed = flushed;
    })
  ]
