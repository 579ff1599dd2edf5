-- ===== src/Log/Reopen.antt =====
-- A crash of the writer of crates/kanbei-log/src/lib.rs in the middle of a frame, recovery, and the next
-- `open`.
use kanbei.Base.{
  ℕ, ◌+◌, ◌-◌, ◌<◌, ◌≡◌, refl, sym, ap, ◌∙◌, inl, inr, true, false, Option, none, some, List, [],
  ◌∷◌, length, add64, add64-eq, u64_mod, arith, if◌then◌else◌, Option-cases, Bool, Bool-cases, ltb,
  ◌==◌, ◌&&◌, take, zero, suc,
}
use kanbei.Core.Envelope.{Envelope}
use kanbei.Log.Types.{
  Line, Meta, MetaBody, meta_without_digest, FrameInfo, Stored, LogFile, ok, err, Recovered,
  new_prev, corruption, magic_mismatch,
}
use kanbei.Log.Writer.{last_stored, continue_after, tail_state}
use kanbei.Log.Reader.{
  scan_tail, has_magic, read_tail, end_offset, recover_loop, recover, read_frame, frame_reason,
  verify_frame, Streaming, stream_step, stream_loop, for_each_frame,
}
use kanbei.Log.Agreement.{Result-cases, recover-for_each_frame}
use kanbei.Log.Appending.{begin}
use kanbei.Log.History.{Batch, fresh, total, append_all, append_all-Kept, fresh-Sound}

pub read_tail-nil : (bytes : List ℕ) → read_tail bytes ≡ some false → bytes ≡ []
unfolding read_tail
read_tail-nil [] h = refl
read_tail-nil (b ∷ bytes) h = elim (Bool-cases (has_magic (b ∷ bytes))) [
  | inl e ↦ absurd (ground (arith, h, e))
  | inr e ↦ absurd (ground (arith, h, e))
]

pub scan_tail-nil : (file : LogFile) → scan_tail file ≡ ok false → file.tail ≡ []
unfolding scan_tail
scan_tail-nil file h = elim (Option-cases (read_tail file.tail)) [
  | inl e ↦ absurd (ground (arith, h, e))
  | inr (b, e) ↦ read_tail-nil file.tail (ground (arith, h, e))
]

module _ (line_seq : Line → Option ℕ) (frame_hash : MetaBody → List Line → ℕ) where
  -- A reading ends at its last frame.
  abbrev EndsAt : Option Stored → Streaming → Type 0
  EndsAt none t = true ≡ false
  EndsAt (some s) t =
      (info : FrameInfo) × (s.content ≡ some info)
      × (info.meta.last_seq ≡ t.last_seq)
      × (frame_hash (meta_without_digest info.meta) info.events ≡ t.prev)

  step-EndsAt :
      (s : Stored) (st t : Streaming)
      → stream_step line_seq frame_hash s st ≡ ok t
      → EndsAt (some s) t
  unfolding stream_step read_frame verify_frame
  step-EndsAt s st t h = elim (Result-cases (read_frame s st.idx st.start)) [
    | inr (e, f) ↦ absurd (ground (arith, h, f))
    | inl (info, f) ↦
        elim (Option-cases
          (frame_reason line_seq frame_hash info.meta info.events st.prev (add64 st.last_seq 1))) [
            | inr (e, v) ↦ absurd (ground (arith, h, f, v))
            | inl v ↦ (info, ground (arith, f), ground (arith, h, f, v), ground (arith, h, f, v))
          ]
  ]

  loop-EndsAt :
      (s : Stored) (ss : List Stored) (st t : Streaming)
      → stream_loop line_seq frame_hash (s ∷ ss) st ≡ ok t
      → EndsAt (last_stored (s ∷ ss)) t
  unfolding stream_loop last_stored
  loop-EndsAt s [] st t h = elim (Result-cases (stream_step line_seq frame_hash s st)) [
    | inl (u, e) ↦ step-EndsAt s st t (ground (arith, h, e))
    | inr (x, e) ↦ absurd (ground (arith, h, e))
  ]
  loop-EndsAt s (q ∷ ss) st t h = elim (Result-cases (stream_step line_seq frame_hash s st)) [
    | inl (u, e) ↦ loop-EndsAt q ss u t (ground (arith, h, e))
    | inr (x, e) ↦ absurd (ground (arith, h, e))
  ]

  pub recover-file :
      (file : LogFile) (r : Recovered)
      → (recover line_seq frame_hash file).1 ≡ ok r
      → (recover line_seq frame_hash file).0
        ≡ (if r.truncated then record file { tail = [] } else file)
  unfolding recover
  recover-file file r h = elim (Result-cases (scan_tail file)) [
    | inr (e, f) ↦ absurd (ground (arith, h, f))
    | inl (truncated, f) ↦
        elim (Result-cases (
          recover_loop line_seq frame_hash file.stored
            (record { prev = new_prev; frames = []; idx = 0; start = 0 }))) [
              | inr (e, g) ↦ absurd (ground (arith, h, f, g))
              | inl (t, g) ↦ ground (arith, h, f, g)
            ]
  ]

  continue_after-EndsAt :
      (o : Option Stored) (t : Streaming)
      → EndsAt o t
      → continue_after frame_hash o ≡ some (add64 t.last_seq 1, t.prev)
  unfolding continue_after
  continue_after-EndsAt none t e = absurd (cc)
  continue_after-EndsAt (some s) t e = rw (e.1, e.3) (ap (λ n. some (add64 n 1, t.prev)) e.2)

  pub continue_after-loop :
      (ss : List Stored) (t : Streaming)
      → stream_loop line_seq frame_hash ss begin ≡ ok t
      → continue_after frame_hash (last_stored ss) ≡ some (add64 t.last_seq 1, t.prev)
  unfolding stream_loop last_stored continue_after add64
  continue_after-loop [] t h = ground (arith, h)
  continue_after-loop (s ∷ ss) t h =
      continue_after-EndsAt (last_stored (s ∷ ss)) t (loop-EndsAt s ss begin t h)

-- What a frame that is cut behind its first bytes reads as.
read_tail-take :
    (frame : List ℕ) (k : ℕ)
    → has_magic frame ≡ true
    → read_tail (take k frame)
      ≡ (if k == 0 then some false else if ltb k 4 then none else some true)
unfolding read_tail has_magic take
read_tail-take [] k h = absurd (cc)
read_tail-take (a ∷ []) k h = absurd (cc)
read_tail-take (a ∷ b ∷ []) k h = absurd (cc)
read_tail-take (a ∷ b ∷ c ∷ []) k h = absurd (cc)
read_tail-take (a ∷ b ∷ c ∷ d ∷ bytes) zero h = refl
read_tail-take (a ∷ b ∷ c ∷ d ∷ bytes) (suc zero) h = refl
read_tail-take (a ∷ b ∷ c ∷ d ∷ bytes) (suc (suc zero)) h = refl
read_tail-take (a ∷ b ∷ c ∷ d ∷ bytes) (suc (suc (suc zero))) h = refl
read_tail-take (a ∷ b ∷ c ∷ d ∷ bytes) (suc (suc (suc (suc k)))) h = rw h (ground arith)

module _ (to_line : Envelope → Line) (line_seq : Line → Option ℕ)
    (frame_hash : MetaBody → List Line → ℕ) (frame_size : Meta → List Line → ℕ) where
  -- A file that frames of the writer are read from, with any tail that is no error, is cut to the frames.
  recover-cut :
      (file : LogFile) (t : Streaming) (bytes : List ℕ) (is_torn : Bool)
      → file.tail ≡ []
      → stream_loop line_seq frame_hash file.stored begin ≡ ok t
      → read_tail bytes ≡ some is_torn
      → recover line_seq frame_hash (record file { tail = bytes }) ≡ (
        file,
        ok (record {
          events = t.events;
          frames = length file.stored;
          truncated = is_torn;
          last_seq = t.last_seq;
        }),
      )
  unfolding for_each_frame scan_tail
  recover-cut file t bytes is_torn whole reads h =
      let torn : LogFile = record file { tail = bytes } in
      let report : Recovered = record {
        events = t.events;
        frames = length file.stored;
        truncated = is_torn;
        last_seq = t.last_seq;
      } in
      let reported : (recover line_seq frame_hash torn).1 ≡ ok report =
        rw (recover-for_each_frame line_seq frame_hash torn, for_each_frame, scan_tail, h, reads)
          refl in
      let emptied : record torn { tail = [] } ≡ file =
        ap (λ (b : List ℕ). record file { tail = b }) (sym whole) in
      let cut : (b : Bool)
          → read_tail bytes ≡ some b
          → (if b then record torn { tail = [] } else torn) ≡ file =
        λ b e. elim (Bool-cases b) [
          | inl f ↦ rw f emptied
          | inr f ↦ rw f (
              ap (λ (x : List ℕ). record file { tail = x }) (read_tail-nil bytes (rw (sym f) e))
              ∙ emptied)
        ] in
      λ i. ((recover-file line_seq frame_hash torn report reported ∙ cut is_torn h) i, reported i)

  -- A file whose tail is an error is refused, and stays.
  recover-refused :
      (file : LogFile) (bytes : List ℕ)
      → read_tail bytes ≡ none
      → let torn : LogFile = record file { tail = bytes } in
        (recover line_seq frame_hash torn
          ≡ (torn, err (corruption (length file.stored) (end_offset file.stored) magic_mismatch)))
        × (tail_state frame_hash torn ≡ none)
  unfolding recover tail_state scan_tail
  recover-refused file bytes h = rw (recover, tail_state, scan_tail, h) (refl, refl)

  -- After any history of appends to a fresh log and a crash that leaves the first k bytes of a further
  -- frame behind: where k is 1, 2 or 3, recovery refuses the file as corrupt and leaves it as it is, and
  -- opening refuses it too; otherwise recovery reports every event written and whether there was a tear,
  -- cuts the file back to what the writer had written, and opening that file goes on from the writer's
  -- number and chain.
  pub recover-append_all :
      ((e : Envelope) → line_seq (to_line e) ≡ some e.seq)
      → (stream : ℕ) (bs : List Batch) (frame : List ℕ) (k : ℕ) → 1 + total bs < u64_mod
      → has_magic frame ≡ true
      → k < length frame
      → let log = append_all to_line line_seq frame_hash frame_size (fresh stream) bs in
        let file : LogFile = record log.file { tail = take k frame } in
        let short = ltb 0 k && ltb k 4 in
        (recover line_seq frame_hash file ≡ (
          if short
          then (
            file,
            err (corruption (length log.file.stored) (end_offset log.file.stored) magic_mismatch),
          )
          else (
            log.file,
            ok (record {
              events = log.seq - 1;
              frames = length log.file.stored;
              truncated = ltb 0 k;
              last_seq = log.seq - 1;
            }),
          )))
        × (tail_state frame_hash (recover line_seq frame_hash file).0
            ≡ (if short then none else some (log.seq, log.prev)))
  unfolding fresh tail_state scan_tail
  recover-append_all read stream bs frame k small starts cut =
      let b =
        append_all-Kept to_line line_seq frame_hash frame_size read (fresh stream) begin bs
          (fresh-Sound to_line line_seq frame_hash frame_size stream) small in
      let log = append_all to_line line_seq frame_hash frame_size (fresh stream) bs in
      let events : b.state.events ≡ log.seq - 1 = omega (arith, b.sound.all) in
      let last : b.state.last_seq ≡ log.seq - 1 = omega (arith, b.sound.next) in
      let next : add64 b.state.last_seq 1 ≡ log.seq =
        add64-eq b.state.last_seq 1 (omega (arith, b.sound.next, b.bounded, small))
        ∙ b.sound.next in
      let there = read_tail-take frame k starts in
      elim (Bool-cases (ltb 0 k && ltb k 4)) [
        | inl short ↦
            let refused = recover-refused log.file (take k frame) (ground (arith, there, short)) in
            rw (short, refused.0) (refl, refused.1)
        | inr long ↦
            let done =
              recover-cut log.file b.state (take k frame) (ltb 0 k) b.tail b.sound.reads
                (ground (arith, there, long)) in
            rw (long, done)
              (
                rw (events, last) refl,
                rw (tail_state, scan_tail, b.tail)
                    (continue_after-loop line_seq frame_hash log.file.stored b.state b.sound.reads
                      ∙ rw (next, b.sound.chain) refl),
              )
      ]
