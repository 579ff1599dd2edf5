-- ===== src/Log/Examples.antt =====
-- The log of crates/kanbei-log/src/lib.rs on two batches, with an encoding of envelopes and a digest of
-- frames that can be computed by hand.
use kanbei.Base.{
  ℕ, ◌+◌, ◌-◌, ◌≡◌, refl, none, some, [], ◌∷◌, List, Option, length, arith, take, ltb, ◌&&◌,
  if◌then◌else◌,
}
use kanbei.Core.Envelope.{Envelope}
use kanbei.Log.Types.{
  Line, Meta, MetaBody, Profile, LogFile, FramePlan, AppendLog, ok, err, corruption, magic_mismatch,
  ◌>>=◌,
}
use kanbei.Log.Writer.{tail_state, append}
use kanbei.Log.Reader.{recover, for_each_frame, export_to, has_magic, end_offset}
use kanbei.Log.Agreement.{recover-for_each_frame}
use kanbei.Log.History.{Batch, fresh, total, append_all, all_taken, export_to-append_all}
use kanbei.Log.Reopen.{recover-append_all}

abbrev event : Envelope
event = record {
  env = 1;
  seq = 1;
  evt = b'e' ∷ [];
  kind = b'k' ∷ [];
  payload_schema = 1;
  payload = b'0' ∷ [];
  refs = [];
  snapshot = none;
}

abbrev to_line : Envelope → Line
to_line e = e.seq ∷ []

abbrev line_seq : Line → Option ℕ
line_seq [] = none
line_seq (n ∷ l) = some n

abbrev frame_hash : MetaBody → List Line → ℕ
frame_hash m lines = m.first_seq + 1

abbrev frame_size : Meta → List Line → ℕ
frame_size m lines = 10

abbrev batches : List Batch
batches =
    record {
      events = event ∷ record event { seq = 2 } ∷ [];
      profile = Profile.fast;
      now = 5;
      outcome = none;
    }
    ∷ record {
      events = record event { seq = 9 } ∷ [];
      profile = Profile.strict;
      now = 6;
      outcome = none;
    }
    ∷ record {
      events = record event { seq = 3 } ∷ [];
      profile = Profile.strict;
      now = 7;
      outcome = some 4;
    }
    ∷ []

export_to-append_all_example :
    export_to line_seq frame_hash
      (append_all to_line line_seq frame_hash frame_size (fresh 8) batches).file
    ≡ ok (
      all_taken to_line line_seq frame_hash frame_size (fresh 8) batches,
      length (all_taken to_line line_seq frame_hash frame_size (fresh 8) batches),
    )
unfolding total
export_to-append_all_example =
    export_to-append_all to_line line_seq frame_hash frame_size (λ e. refl) 8 batches (omega arith)

-- A frame that zstd has not finished: its magic number, and the first bytes behind it.
abbrev frame_bytes : List ℕ
frame_bytes = 0x28 ∷ 0xb5 ∷ 0x2f ∷ 0xfd ∷ 4 ∷ 0 ∷ 65 ∷ []

recover-append_all_example :
    let log = append_all to_line line_seq frame_hash frame_size (fresh 8) batches in
    let file : LogFile = record log.file { tail = take 5 frame_bytes } in
    let short = ltb 0 5 && ltb 5 4 in
    (recover line_seq frame_hash file ≡ (
      if short
      then (
        file,
        err (corruption (length log.file.stored) (end_offset log.file.stored) magic_mismatch),
      )
      else (
        log.file,
        ok (record {
          events = log.seq - 1;
          frames = length log.file.stored;
          truncated = ltb 0 5;
          last_seq = log.seq - 1;
        }),
      )))
    × (tail_state frame_hash (recover line_seq frame_hash file).0
        ≡ (if short then none else some (log.seq, log.prev)))
unfolding total has_magic
recover-append_all_example =
    recover-append_all to_line line_seq frame_hash frame_size (λ e. refl) 8 batches frame_bytes 5
      (omega arith) refl (omega arith)

abbrev damaged : LogFile
damaged = record { stored = record { len = 7; content = none } ∷ []; tail = [] }

recover-for_each_frame_example :
    (recover line_seq frame_hash damaged).1
    ≡ (for_each_frame line_seq frame_hash damaged >>= (λ r. ok r.0))
recover-for_each_frame_example = recover-for_each_frame line_seq frame_hash damaged

abbrev plan : FramePlan
plan = record { first_seq = 1; last_seq = 1; count = 1; frame_len = 10 }

abbrev no_error : Option ℕ
no_error = none

abbrev one : AppendLog
one = (append to_line frame_hash frame_size (fresh 8) (event ∷ []) Profile.strict 5 none).0
