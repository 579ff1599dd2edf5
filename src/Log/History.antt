-- ===== src/Log/History.antt =====
-- Whole histories of the writer of crates/kanbei-log/src/lib.rs, read back.
use mathlib.Core.List.{append_assoc, append-nil}
use kanbei.Base.{
  ℕ, ◌+◌, ◌<◌, ◌≤◌, ◌≡◌, refl, sym, ap, ◌∙◌, inl, inr, ◌++◌, true, false, Option, none, some, List,
  [], ◌∷◌, map, length, add64-eq, u64_mod, arith, Option-cases, Bool-cases, is_empty,
}
use kanbei.Core.Envelope.{Envelope}
use kanbei.Log.Types.{Line, Meta, MetaBody, FrameInfo, Profile, FramePlan, AppendLog, ok, new_prev}
use kanbei.Log.Writer.{check_events, next_meta, write_frame, plan_of, append, acknowledge, flush}
use kanbei.Log.Reader.{scan_tail, Streaming, stream_loop, for_each_frame, lines_of, export_to}
use kanbei.Log.Appending.{Sound, begin, write_frame-Sound}

pub record Batch : Type 0 where
  pub events : List Envelope
  pub profile : Profile
  pub now : ℕ
  pub outcome : Option ℕ

-- A log that has just been made.
unfoldable pub fresh : ℕ → AppendLog
fresh stream = record {
  file = record { stored = []; tail = [] };
  stream = stream;
  seq = 1;
  prev = new_prev;
  frames = 0;
  queue = [];
  flushed = 0;
}

unfoldable pub total : List Batch → ℕ
total [] = 0
total (b ∷ bs) = length b.events + total bs

lines_of-append : (fs gs : List FrameInfo) → lines_of (fs ++ gs) ≡ lines_of fs ++ lines_of gs
unfolding lines_of
lines_of-append [] gs = refl
lines_of-append (f ∷ fs) gs =
    ap (λ ls. f.events ++ ls) (lines_of-append fs gs)
    ∙ sym (append_assoc f.events (lines_of fs) (lines_of gs))

pub acknowledge-file :
    (profile : Profile) (outcome : Option ℕ) (plan : FramePlan) (log : AppendLog)
    → ((acknowledge profile outcome plan log).0.file ≡ log.file)
      × ((acknowledge profile outcome plan log).0.seq ≡ log.seq)
      × ((acknowledge profile outcome plan log).0.prev ≡ log.prev)
unfolding acknowledge flush
acknowledge-file Profile.fast outcome plan log = (refl, refl, refl)
acknowledge-file Profile.balanced outcome plan log = (refl, refl, refl)
acknowledge-file Profile.strict none plan log = (refl, refl, refl)
acknowledge-file Profile.strict (some e) plan log = (refl, refl, refl)

module _ (to_line : Envelope → Line) (line_seq : Line → Option ℕ)
    (frame_hash : MetaBody → List Line → ℕ) (frame_size : Meta → List Line → ℕ) where
  unfoldable pub append_all : AppendLog → List Batch → AppendLog
  unfolding append
  append_all log [] = log
  append_all log (b ∷ bs) =
      append_all (append to_line frame_hash frame_size log b.events b.profile b.now b.outcome).0 bs

  -- The lines of a batch that `append` takes: it is not empty, its envelopes are valid, and their numbers
  -- go on from the log's.
  unfoldable pub taken : AppendLog → List Envelope → List Line
  unfolding check_events
  taken log events = elim (check_events log.seq 0 events) [
    | none ↦ map to_line events
    | some reason ↦ []
  ]

  unfoldable pub all_taken : AppendLog → List Batch → List Line
  unfolding append taken
  all_taken log [] = []
  all_taken log (b ∷ bs) =
      taken log b.events
      ++ all_taken (append to_line frame_hash frame_size log b.events b.profile b.now b.outcome).0
          bs

  -- What a step keeps: the reader still reads the file, and has read the lines taken.
  pub record Kept (log : AppendLog) (st : Streaming) (lines : List Line) (most : ℕ)
      (after : AppendLog) : Type 0 where
    pub state : Streaming
    pub sound : Sound to_line line_seq frame_hash frame_size after state
    pub read : lines_of state.visited ≡ lines_of st.visited ++ lines
    pub bounded : after.seq ≤ log.seq + most
    pub tail : after.file.tail ≡ log.file.tail

  Kept-same :
      (log : AppendLog) (st : Streaming) (n : ℕ)
      → Sound to_line line_seq frame_hash frame_size log st
      → Kept log st [] n log
  Kept-same log st n sound = record {
    state = st;
    sound = sound;
    read = sym (append-nil (lines_of st.visited));
    bounded = omega arith;
    tail = refl;
  }

  Kept-written :
      ((e : Envelope) → line_seq (to_line e) ≡ some e.seq)
      → (log : AppendLog) (st : Streaming) (b : Batch)
      → Sound to_line line_seq frame_hash frame_size log st
      → log.seq + length b.events < u64_mod
      → check_events log.seq 0 b.events ≡ none
      → is_empty b.events ≡ false
      → Kept log st
          (map to_line b.events)
          (length b.events)
          (append to_line frame_hash frame_size log b.events b.profile b.now b.outcome).0
  unfolding append write_frame lines_of
  Kept-written read log st b sound small checked nonempty =
      let m = next_meta to_line frame_hash frame_size log b.events b.now in
      let written = write_frame to_line frame_hash frame_size log b.events m in
      let k =
        write_frame-Sound to_line line_seq frame_hash frame_size read log st b.events b.now sound
          checked nonempty small in
      let a =
        acknowledge-file b.profile b.outcome (plan_of to_line frame_hash frame_size m b.events)
          written in
      rw (nonempty, checked)
        (record {
          state = k.0;
          sound = record {
            reads = rw a.0 k.1.reads;
            chain = rw a.2 k.1.chain;
            next = rw a.1 k.1.next;
            all = rw a.1 k.1.all;
          };
          read = rw k.2 (
              lines_of-append st.visited (record { meta = m; events = map to_line b.events } ∷ [])
              ∙ ap (λ ls. lines_of st.visited ++ ls) (append-nil (map to_line b.events)));
          bounded = rw a.1 (omega (arith, add64-eq log.seq (length b.events) small));
          tail = rw a.0 refl;
        })

  taken-empty :
      (log : AppendLog) (events : List Envelope) → is_empty events ≡ true → taken log events ≡ []
  unfolding taken check_events
  taken-empty log [] h = refl
  taken-empty log (e ∷ es) h = absurd (cc)

  pub taken-none :
      (log : AppendLog) (events : List Envelope)
      → check_events log.seq 0 events ≡ none
      → taken log events ≡ map to_line events
  unfolding taken
  taken-none log events h = rw (h, taken) refl

  pub append-Kept :
      ((e : Envelope) → line_seq (to_line e) ≡ some e.seq)
      → (log : AppendLog) (st : Streaming) (b : Batch)
      → Sound to_line line_seq frame_hash frame_size log st
      → log.seq + length b.events < u64_mod
      → Kept log st
          (taken log b.events)
          (length b.events)
          (append to_line frame_hash frame_size log b.events b.profile b.now b.outcome).0
  unfolding append taken
  append-Kept read log st b sound small = elim (Bool-cases (is_empty b.events)) [
    | inl nothing ↦
        rw (nothing, taken-empty log b.events nothing) (Kept-same log st (length b.events) sound)
    | inr some_event ↦ elim (Option-cases (check_events log.seq 0 b.events)) [
      | inl checked ↦
          rw (taken-none log b.events checked)
            (Kept-written read log st b sound small checked some_event)
      | inr (reason, refused) ↦
          rw (some_event, refused, taken) (Kept-same log st (length b.events) sound)
    ]
  ]

  pub append_all-Kept :
      ((e : Envelope) → line_seq (to_line e) ≡ some e.seq)
      → (log : AppendLog) (st : Streaming) (bs : List Batch)
      → Sound to_line line_seq frame_hash frame_size log st
      → log.seq + total bs < u64_mod
      → Kept log st (all_taken log bs) (total bs) (append_all log bs)
  unfolding append_all all_taken total
  append_all-Kept read log st [] sound small = Kept-same log st 0 sound
  append_all-Kept read log st (b ∷ bs) sound small =
      let k = append-Kept read log st b sound (omega arith) in
      let rest =
        append_all-Kept read
          (append to_line frame_hash frame_size log b.events b.profile b.now b.outcome).0 k.state bs
          k.sound (omega (arith, k.bounded, small)) in
      record {
        state = rest.state;
        sound = rest.sound;
        read =
            rest.read
            ∙ ap
                (λ ls.
                  ls
                  ++ all_taken
                      (append to_line frame_hash frame_size log b.events b.profile b.now
                        b.outcome).0
                      bs)
                k.read
            ∙ append_assoc (lines_of st.visited) (taken log b.events) (
                all_taken
                  (append to_line frame_hash frame_size log b.events b.profile b.now b.outcome).0
                  bs);
        bounded = omega (arith, rest.bounded, k.bounded);
        tail = rest.tail ∙ k.tail;
      }

  pub fresh-Sound : (stream : ℕ) → Sound to_line line_seq frame_hash frame_size (fresh stream) begin
  unfolding fresh stream_loop
  fresh-Sound stream = record { reads = refl; chain = refl; next = refl; all = refl }

  -- Export after any history of appends to a fresh log, under any profiles, flush outcomes and clocks,
  -- gives exactly the lines of the batches that were taken, in order, if the numbers stay in 64 bits and
  -- a line is read back with the number of its event.
  pub export_to-append_all :
      ((e : Envelope) → line_seq (to_line e) ≡ some e.seq)
      → (stream : ℕ) (bs : List Batch) → 1 + total bs < u64_mod
      → export_to line_seq frame_hash (append_all (fresh stream) bs).file
        ≡ ok (all_taken (fresh stream) bs, length (all_taken (fresh stream) bs))
  unfolding export_to for_each_frame fresh scan_tail lines_of
  export_to-append_all read stream bs small =
      let k = append_all-Kept read (fresh stream) begin bs (fresh-Sound stream) small in
      rw (k.tail, scan_tail, k.sound.reads, k.read) refl
