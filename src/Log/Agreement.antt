-- ===== src/Log/Agreement.antt =====
-- Recovery and streaming of crates/kanbei-log/src/lib.rs see the same log.
use kanbei.Base.{
  ℕ, ◌+◌, ◌≡◌, refl, ap, ◌⊎◌, inl, inr, ◌++◌, Option, List, [], ◌∷◌, length, length-append, add64,
  arith,
}
use kanbei.Log.Types.{
  Line, MetaBody, FrameInfo, Stored, LogFile, LogResult, ok, err, ◌>>=◌, new_prev,
}
use kanbei.Log.Reader.{
  scan_tail, last_seq_of, offset_seq, count_events, verify_frame, read_frame, Recovering,
  recover_step, recover_loop, recover, Streaming, stream_step, stream_loop, for_each_frame,
}

last_seq_of-append :
    (fs : List FrameInfo) (f : FrameInfo) → last_seq_of (fs ++ f ∷ []) ≡ f.meta.last_seq
unfolding last_seq_of
last_seq_of-append [] f = refl
last_seq_of-append (g ∷ []) f = refl
last_seq_of-append (g ∷ h ∷ fs) f = last_seq_of-append (h ∷ fs) f

count_events-append :
    (fs : List FrameInfo) (f : FrameInfo)
    → count_events (fs ++ f ∷ []) ≡ count_events fs + length f.events
unfolding count_events
count_events-append [] f = omega arith
count_events-append (g ∷ fs) f = omega (arith, count_events-append fs f)

offset_seq-last : (fs : List FrameInfo) → offset_seq fs ≡ add64 (last_seq_of fs) 1
unfolding offset_seq add64 last_seq_of
offset_seq-last [] = refl
offset_seq-last (f ∷ fs) = refl

pub Result-cases {ℓ} :
    {E A : Type ℓ} (r : LogResult E A) → ((a : A) × (r ≡ ok a)) ⊎ ((e : E) × (r ≡ err e))
Result-cases (ok a) = inl (a, refl)
Result-cases (err e) = inr (e, refl)

abbrev summary : Recovering → Streaming
summary st = record {
  prev = st.prev;
  events = count_events st.frames;
  last_seq = last_seq_of st.frames;
  idx = st.idx;
  start = st.start;
  visited = st.frames;
}

module _ (line_seq : Line → Option ℕ) (frame_hash : MetaBody → List Line → ℕ) where
  step-summary :
      (s : Stored) (st : Recovering)
      → stream_step line_seq frame_hash s (summary st)
        ≡ (recover_step line_seq frame_hash s st >>= (λ t. ok (summary t)))
  unfolding stream_step recover_step
  step-summary s st = elim (Result-cases (read_frame s st.idx st.start)) [
    | inr (e, f) ↦ rw f refl
    | inl (info, f) ↦
        rw (f, offset_seq-last st.frames)
          (elim (Result-cases (
            verify_frame line_seq frame_hash info.meta info.events st.prev
              (add64 (last_seq_of st.frames) 1) st.idx st.start)) [
                | inr (e, v) ↦ rw v refl
                | inl (prev, v) ↦
                    rw (v, last_seq_of-append st.frames info, count_events-append st.frames info)
                      refl
              ])
  ]

  loop-summary :
      (ss : List Stored) (st : Recovering)
      → stream_loop line_seq frame_hash ss (summary st)
        ≡ (recover_loop line_seq frame_hash ss st >>= (λ t. ok (summary t)))
  unfolding stream_loop recover_loop
  loop-summary [] st = refl
  loop-summary (s ∷ ss) st =
      rw (step-summary s st) (elim (Result-cases (recover_step line_seq frame_hash s st)) [
        | inr (e, f) ↦ rw f refl
        | inl (t, f) ↦ rw f (loop-summary ss t)
      ])

  step-frames :
      (s : Stored) (st t : Recovering)
      → recover_step line_seq frame_hash s st ≡ ok t
      → length t.frames ≡ length st.frames + 1
  unfolding recover_step
  step-frames s st t h = elim (Result-cases (read_frame s st.idx st.start)) [
    | inr (e, f) ↦ absurd (ground (arith, h, f))
    | inl (info, f) ↦
        elim (Result-cases (
          verify_frame line_seq frame_hash info.meta info.events st.prev (offset_seq st.frames)
            st.idx st.start)) [
              | inr (e, v) ↦ absurd (ground (arith, h, f, v))
              | inl (prev, v) ↦ ground (arith, h, f, v, length-append st.frames (info ∷ []))
            ]
  ]

  loop-frames :
      (ss : List Stored) (st t : Recovering)
      → recover_loop line_seq frame_hash ss st ≡ ok t
      → length t.frames ≡ length st.frames + length ss
  unfolding recover_loop
  loop-frames [] st t h = ground (arith, h)
  loop-frames (s ∷ ss) st t h = elim (Result-cases (recover_step line_seq frame_hash s st)) [
    | inr (e, f) ↦ absurd (ground (arith, h, f))
    | inl (u, f) ↦ omega (arith, step-frames s st u f, loop-frames ss u t (ground (arith, h, f)))
  ]

  -- Recovery reports what streaming reports, on every file: the same counts, or the same error.
  pub recover-for_each_frame :
      (file : LogFile)
      → (recover line_seq frame_hash file).1
        ≡ (for_each_frame line_seq frame_hash file >>= (λ r. ok r.0))
  unfolding recover for_each_frame
  recover-for_each_frame file = elim (Result-cases (scan_tail file)) [
    | inr (e, f) ↦ rw (f, recover, for_each_frame) refl
    | inl (truncated, f) ↦
        let first : Recovering = record { prev = new_prev; frames = []; idx = 0; start = 0 } in
        rw (f, recover, for_each_frame, loop-summary file.stored first)
          (elim (Result-cases (recover_loop line_seq frame_hash file.stored first)) [
            | inr (e, g) ↦ rw g refl
            | inl (t, g) ↦
                rw (g, loop-frames file.stored first t g)
                  (ap
                    (λ (n : ℕ). LogResult.ok (record {
                      events = count_events t.frames;
                      frames = n;
                      truncated = truncated;
                      last_seq = last_seq_of t.frames;
                    }))
                    (omega arith))
          ])
  ]
