-- ===== src/Log/Appending.antt =====
-- What the writer of crates/kanbei-log/src/lib.rs appends, its reader accepts.
use kanbei.Base.{
  ℕ, ◌+◌, ◌<◌, ◌≡◌, refl, sym, ◌∙◌, inl, inr, ◌++◌, false, Option, none, some, List, [], ◌∷◌, map,
  length, add64, add64-eq, sub64, u64_mod, arith, is_empty,
}
use kanbei.Core.Envelope.{Envelope}
use kanbei.Log.Types.{
  Line, Meta, MetaBody, meta_without_digest, FrameInfo, Stored, AppendLog, ok, ◌>>=◌, new_prev,
}
use kanbei.Log.Writer.{check_events, next_meta, write_frame}
use kanbei.Log.Reader.{
  check_event_seqs, frame_reason, verify_frame, read_frame, Streaming, stream_step, stream_loop,
}
use kanbei.Log.Agreement.{Result-cases}

length-map {ℓ κ} :
    {A : Type ℓ} {B : Type κ} (f : A → B) (xs : List A) → length (map f xs) ≡ length xs
length-map f [] = refl
length-map f (x ∷ xs) = omega (arith, length-map f xs)

abbrev pub begin : Streaming
begin = record { prev = new_prev; events = 0; last_seq = 0; idx = 0; start = 0; visited = [] }

module _ (to_line : Envelope → Line) (line_seq : Line → Option ℕ)
    (frame_hash : MetaBody → List Line → ℕ) (frame_size : Meta → List Line → ℕ) where
  pub loop-append :
      (ss : List Stored) (s : Stored) (st : Streaming)
      → stream_loop line_seq frame_hash (ss ++ s ∷ []) st
        ≡ (stream_loop line_seq frame_hash ss st >>= stream_step line_seq frame_hash s)
  unfolding stream_loop
  loop-append [] s st = elim (Result-cases (stream_step line_seq frame_hash s st)) [
    | inl (t, e) ↦ rw e refl
    | inr (x, e) ↦ rw e refl
  ]
  loop-append (t ∷ ss) s st = elim (Result-cases (stream_step line_seq frame_hash t st)) [
    | inl (u, e) ↦ rw e (loop-append ss s u)
    | inr (x, e) ↦ rw e refl
  ]

  check_events-lines :
      ((e : Envelope) → line_seq (to_line e) ≡ some e.seq)
      → (seq i : ℕ) (events : List Envelope) → check_events seq i events ≡ none
      → check_event_seqs line_seq frame_hash seq i (map to_line events) ≡ none
  unfolding check_events check_event_seqs
  check_events-lines read seq i [] h = refl
  check_events-lines read seq i (e ∷ es) h =
      ground (arith, h, read e, check_events-lines read seq (i + 1) es)

  -- The writer's state is what the reader makes of the file.
  pub record Sound (log : AppendLog) (st : Streaming) : Type 0 where
    pub reads : stream_loop line_seq frame_hash log.file.stored begin ≡ ok st
    pub chain : st.prev ≡ log.prev
    pub next : st.last_seq + 1 ≡ log.seq
    pub all : st.events + 1 ≡ log.seq

  next_meta-accepted :
      ((e : Envelope) → line_seq (to_line e) ≡ some e.seq)
      → (log : AppendLog) (events : List Envelope) (now : ℕ) → check_events log.seq 0 events ≡ none
      → frame_reason line_seq frame_hash
          (next_meta to_line frame_hash frame_size log events now)
          (map to_line events)
          log.prev
          log.seq
        ≡ none
  unfolding frame_reason next_meta meta_without_digest
  next_meta-accepted read log events now h =
      ground (arith, length-map to_line events, check_events-lines read log.seq 0 events h)

  step-accepts :
      (s : Stored) (info : FrameInfo) (st : Streaming)
      → s.content ≡ some info
      → frame_reason line_seq frame_hash info.meta info.events st.prev (add64 st.last_seq 1) ≡ none
      → stream_step line_seq frame_hash s st
        ≡ ok (record {
          prev = frame_hash (meta_without_digest info.meta) info.events;
          events = st.events + length info.events;
          last_seq = info.meta.last_seq;
          idx = st.idx + 1;
          start = st.start + s.len;
          visited = st.visited ++ info ∷ [];
        })
  unfolding stream_step read_frame verify_frame
  step-accepts s info st h k = rw (h, k, verify_frame) refl

  next-seq :
      (log : AppendLog) (st : Streaming)
      → Sound log st
      → log.seq < u64_mod
      → add64 st.last_seq 1 ≡ log.seq
  next-seq log st sound small = add64-eq st.last_seq 1 (omega (arith, sound.next)) ∙ sound.next

  seq_grows :
      (log : AppendLog) (events : List Envelope)
      → log.seq + length events < u64_mod
      → is_empty events ≡ false
      → sub64 (add64 log.seq (length events)) 1 + 1 ≡ log.seq + length events
  unfolding add64 sub64
  seq_grows log [] small nonempty = absurd (cc)
  seq_grows log (e ∷ es) small nonempty = omega arith

  -- The frame that the writer writes takes the reader from the old end of the log to the new one.
  pub write_frame-Sound :
      ((e : Envelope) → line_seq (to_line e) ≡ some e.seq)
      → (log : AppendLog) (st : Streaming) (events : List Envelope) (now : ℕ) → Sound log st
      → check_events log.seq 0 events ≡ none
      → is_empty events ≡ false
      → log.seq + length events < u64_mod
      → (t : Streaming) × Sound
          (write_frame to_line frame_hash frame_size log events
            (next_meta to_line frame_hash frame_size log events now))
          t
        × (t.visited
            ≡ st.visited
              ++ record {
                meta = next_meta to_line frame_hash frame_size log events now;
                events = map to_line events;
              }
                ∷ [])
  unfolding write_frame next_meta
  write_frame-Sound read log st events now sound checked nonempty small =
      let m = next_meta to_line frame_hash frame_size log events now in
      let after : Streaming = record {
        prev = m.digest;
        events = st.events + length (map to_line events);
        last_seq = m.last_seq;
        idx = st.idx + 1;
        start = st.start + frame_size m (map to_line events);
        visited = st.visited ++ record { meta = m; events = map to_line events } ∷ [];
      } in
      (
        after,
        record {
          reads =
              loop-append log.file.stored
                (record {
                  len = frame_size m (map to_line events);
                  content = some (record { meta = m; events = map to_line events });
                })
                begin
              ∙ rw sound.reads (
                  step-accepts
                    (record {
                      len = frame_size m (map to_line events);
                      content = some (record { meta = m; events = map to_line events });
                    })
                    (record { meta = m; events = map to_line events }) st refl
                    (rw (sound.chain, next-seq log st sound (omega arith))
                      (next_meta-accepted read log events now checked)));
          chain = refl;
          next = seq_grows log events small nonempty ∙ sym (add64-eq log.seq (length events) small);
          all =
              omega (
                arith,
                sound.all,
                length-map to_line events,
                add64-eq log.seq (length events) small,
              );
        },
        refl,
      )
