-- ===== src/Log/Reader.antt =====
-- The reader of crates/kanbei-log/src/lib.rs: verification, recovery, streaming and export. `line_seq` is the
-- number under "seq" of a line that is JSON (serde_json), none where there is none.
use kanbei.Base.{
  ℕ, ◌+◌, ◌++◌, Bool, true, false, not, Option, none, some, List, [], ◌∷◌, if◌then◌else◌, ◌==◌,
  ◌&&◌, length, add64,
}
use kanbei.Log.Types.{
  Line, Meta, MetaBody, meta_without_digest, FrameInfo, Stored, LogFile, Reason, magic_mismatch,
  unreadable, schema_differs, digest_differs, chain_broken, count_mismatch, seq_gap, no_seq,
  seq_differs, RecoveryError, corruption, LogResult, ok, err, ◌>>=◌, Recovered, schema_version,
  new_prev,
}

-- `boundaries` summed up: the offset behind the frames.
unfoldable pub end_offset : List Stored → ℕ
end_offset [] = 0
end_offset (s ∷ ss) = s.len + end_offset ss

-- `magic != MAGIC` of a buffer of four zeros that is read into: fewer bytes leave a zero at its end.
unfoldable pub has_magic : List ℕ → Bool
has_magic (a ∷ b ∷ c ∷ d ∷ bytes) = a == 0x28 && (b == 0xb5 && (c == 0x2f && d == 0xfd))
has_magic _ = false

-- Is the tail torn? None is bytes that a frame does not start with.
unfoldable pub read_tail : List ℕ → Option Bool
unfolding has_magic
read_tail [] = some false
read_tail (b ∷ bytes) = if has_magic (b ∷ bytes) then some true else none

-- The last turn of `scan_frames`, behind the complete frames.
unfoldable pub scan_tail : LogFile → LogResult RecoveryError Bool
unfolding end_offset read_tail
scan_tail file = elim (read_tail file.tail) [
  | none ↦ err (corruption (length file.stored) (end_offset file.stored) magic_mismatch)
  | some is_torn ↦ ok is_torn
]

-- `last().map(|f| f.meta.last_seq)`, or 0; and `offset_seq`.
unfoldable pub last_seq_of : List FrameInfo → ℕ
last_seq_of [] = 0
last_seq_of (f ∷ []) = f.meta.last_seq
last_seq_of (f ∷ g ∷ fs) = last_seq_of (g ∷ fs)

unfoldable pub offset_seq : List FrameInfo → ℕ
unfolding last_seq_of add64
offset_seq [] = 1
offset_seq (f ∷ fs) = add64 (last_seq_of (f ∷ fs)) 1

-- The sum of the lengths.
unfoldable pub count_events : List FrameInfo → ℕ
count_events [] = 0
count_events (f ∷ fs) = length f.events + count_events fs

-- `read_frame`.
unfoldable pub read_frame : Stored → ℕ → ℕ → LogResult RecoveryError FrameInfo
read_frame s frame offset = elim s.content [
  | none ↦ err (corruption frame offset unreadable)
  | some info ↦ ok info
]

-- The locals of the loop of `recover`.
pub record Recovering : Type 0 where
  pub prev : ℕ
  pub frames : List FrameInfo
  pub idx : ℕ
  pub start : ℕ

-- The locals of the loop of `for_each_frame`; `visited` is what the callback has been given.
pub record Streaming : Type 0 where
  pub prev : ℕ
  pub events : ℕ
  pub last_seq : ℕ
  pub idx : ℕ
  pub start : ℕ
  pub visited : List FrameInfo

unfoldable pub lines_of : List FrameInfo → List Line
lines_of [] = []
lines_of (f ∷ fs) = f.events ++ lines_of fs

module _ (line_seq : Line → Option ℕ) (frame_hash : MetaBody → List Line → ℕ) where
  -- The loop of `check_event_seqs`.
  unfoldable pub check_event_seqs : ℕ → ℕ → List Line → Option Reason
  unfolding add64
  check_event_seqs first i [] = none
  check_event_seqs first i (l ∷ ls) =
      let rest = check_event_seqs first (i + 1) ls in
      elim (line_seq l) [
        | none ↦ some (no_seq i)
        | some seq ↦ if seq == add64 first i then rest else some (seq_differs i seq (add64 first i))
      ]

  unfoldable pub frame_reason : Meta → List Line → ℕ → ℕ → Option Reason
  unfolding meta_without_digest check_event_seqs
  frame_reason m events prev expected_first =
      let got = frame_hash (meta_without_digest m) events in
      if not (m.schema == schema_version)
      then some (schema_differs m.schema)
      else if not (got == m.digest)
      then some (digest_differs got m.digest)
      else if not (m.prev == prev)
      then some (chain_broken m.prev prev)
      else if not (m.count == length events)
      then some count_mismatch
      else if not (m.first_seq == expected_first)
      then some (seq_gap m.first_seq expected_first)
      else check_event_seqs m.first_seq 0 events

  unfoldable pub verify_frame : Meta → List Line → ℕ → ℕ → ℕ → ℕ → LogResult RecoveryError ℕ
  unfolding frame_reason meta_without_digest
  verify_frame m events prev expected_first frame offset =
      elim (frame_reason m events prev expected_first) [
        | some reason ↦ err (corruption frame offset reason)
        | none ↦ ok (frame_hash (meta_without_digest m) events)
      ]

  unfoldable pub recover_step : Stored → Recovering → LogResult RecoveryError Recovering
  unfolding read_frame verify_frame offset_seq
  recover_step s st = do
    info ← read_frame s st.idx st.start
    prev ← verify_frame info.meta info.events st.prev (offset_seq st.frames) st.idx st.start
    ok (record {
      prev = prev;
      frames = st.frames ++ info ∷ [];
      idx = st.idx + 1;
      start = st.start + s.len;
    })

  unfoldable pub recover_loop : List Stored → Recovering → LogResult RecoveryError Recovering
  unfolding recover_step
  recover_loop [] st = ok st
  recover_loop (s ∷ ss) st = recover_step s st >>= recover_loop ss

  -- `recover`: the report, and the file with a torn tail cut off.
  unfoldable pub recover : LogFile → LogFile × LogResult RecoveryError Recovered
  unfolding scan_tail recover_loop last_seq_of count_events
  recover file = elim (scan_tail file) [
    | err e ↦ (file, err e)
    | ok truncated ↦
        elim (recover_loop file.stored
          (record { prev = new_prev; frames = []; idx = 0; start = 0 })) [
            | err e ↦ (file, err e)
            | ok st ↦ (
              if truncated then record file { tail = [] } else file,
              ok (record {
                events = count_events st.frames;
                frames = length st.frames;
                truncated = truncated;
                last_seq = last_seq_of st.frames;
              }),
            )
          ]
  ]

  unfoldable pub stream_step : Stored → Streaming → LogResult RecoveryError Streaming
  unfolding read_frame verify_frame add64
  stream_step s st = do
    info ← read_frame s st.idx st.start
    prev ← verify_frame info.meta info.events st.prev (add64 st.last_seq 1) st.idx st.start
    ok (record {
      prev = prev;
      events = st.events + length info.events;
      last_seq = info.meta.last_seq;
      idx = st.idx + 1;
      start = st.start + s.len;
      visited = st.visited ++ info ∷ [];
    })

  unfoldable pub stream_loop : List Stored → Streaming → LogResult RecoveryError Streaming
  unfolding stream_step
  stream_loop [] st = ok st
  stream_loop (s ∷ ss) st = stream_step s st >>= stream_loop ss

  -- `for_each_frame`, with the frames that the callback has been given where it succeeds.
  unfoldable pub for_each_frame : LogFile → LogResult RecoveryError (Recovered × List FrameInfo)
  unfolding scan_tail stream_loop
  for_each_frame file = do
    truncated ← scan_tail file
    st ←
        stream_loop file.stored
          (record { prev = new_prev; events = 0; last_seq = 0; idx = 0; start = 0; visited = [] })
    ok (
      record {
        events = st.events;
        frames = length file.stored;
        truncated = truncated;
        last_seq = st.last_seq;
      },
      st.visited,
    )

  -- `export_to` into an output that takes every line: the lines, and their number.
  unfoldable pub export_to : LogFile → LogResult RecoveryError (List Line × ℕ)
  unfolding for_each_frame lines_of
  export_to file = do r ← for_each_frame file; ok (lines_of r.1, length (lines_of r.1))
