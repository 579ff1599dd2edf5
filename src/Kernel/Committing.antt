-- ===== src/Kernel/Committing.antt =====
-- What `commit` of crates/kanbei-kernel/src/commit.rs promises of references, of the order of syncs, and of
-- pins.
use kanbei.Base.{
  ◌||◌, ℕ, ◌+◌, ◌≡◌, refl, ap, ◌∙◌, inl, inr, ◌++◌, Bool, false, Option, List, [], ◌∷◌, All,
  All-mono, contains, arith,
}
use kanbei.Core.Envelope.{Envelope}
use kanbei.Objects.{Bytes, ObjectStore, fsync_frame, exists}
use kanbei.Log.Types.{Line, Meta, MetaBody, AppendLog}
use kanbei.Log.Writer.{append}
use kanbei.Log.Agreement.{Result-cases}
use kanbei.Log.Durable.{append-queue}
use kanbei.Kernel.Pins.{drop_guard, contains-drop_guard}
use kanbei.Kernel.Commit.{
  NewEvent, CommitParams, CommitOutcome, CommitPath, CommitResult, Work, ok, err, prepare_all,
  envelopes, append_frame, end_commit, commit,
}
use kanbei.Kernel.Growth.{syncs_of}
use kanbei.Kernel.Preparing.{Resolves, prepare_all-Grows, prepare_all-Resolves}

All-envelopes :
    (P : List ℕ → Type 0) (fresh_id : ℕ → List ℕ) (params : CommitParams) (i : ℕ)
    (evs : List NewEvent)
    → All (λ o. P o.refs) evs
    → All (λ e. P e.refs) (envelopes fresh_id params i evs)
unfolding envelopes
All-envelopes P fresh_id params i [] h = tt
All-envelopes P fresh_id params i (ev ∷ evs) h =
    (h.0, All-envelopes P fresh_id params (i + 1) evs h.1)

module _ (hash : Bytes → ℕ) (object_payload : ℕ → Bytes) (has : ℕ → Bool)
    (to_line : Envelope → Line) (frame_hash : MetaBody → List Line → ℕ)
    (frame_size : Meta → List Line → ℕ) where
  append_frame-kept :
      (params : CommitParams) (es : List Envelope) (now : ℕ) (outcome : Option ℕ) (log : AppendLog)
      (w : Work)
      → let after =
          (append_frame hash object_payload has to_line frame_hash frame_size params es now outcome
            log w).0 in
        (after.store.objects ≡ w.store.objects) × (after.gc_pins ≡ drop_guard w.guard)
  unfolding append_frame
  append_frame-kept params es now outcome log w =
      elim (Result-cases
        (append to_line frame_hash frame_size (record log { queue = w.store.queue }) es
          params.profile now outcome).1) [
            | inl (plan, e) ↦ rw (e, append_frame) (refl, refl)
            | inr (x, e) ↦ rw (e, append_frame) (refl, refl)
          ]

  append_frame-ok :
      (params : CommitParams) (es : List Envelope) (now : ℕ) (outcome : Option ℕ) (log : AppendLog)
      (w : Work) (o : CommitOutcome)
      → (append_frame hash object_payload has to_line frame_hash frame_size params es now outcome
          log w).1
        ≡ ok o
      → (o.envelopes ≡ es)
        × ((append_frame hash object_payload has to_line frame_hash frame_size params es now outcome
              log w).0.store.queue
            ≡ w.store.queue ++ fsync_frame log.seq ∷ [])
  unfolding append_frame
  append_frame-ok params es now outcome log w o h =
      elim (Result-cases
        (append to_line frame_hash frame_size (record log { queue = w.store.queue }) es
          params.profile now outcome).1) [
            | inl (plan, e) ↦ (
              ground (arith, h, e),
              rw (e, append_frame)
                  (append-queue to_line frame_hash frame_size (record log { queue = w.store.queue })
                    es params.profile now outcome plan e),
            )
            | inr (x, e) ↦ absurd (ground (arith, h, e))
          ]

  end_commit-ok :
      (c : CommitPath) (params : CommitParams) (fresh_id : ℕ → List ℕ) (now : ℕ)
      (outcome : Option ℕ) (p : Work × CommitResult (List NewEvent)) (o : CommitOutcome)
      → let ended =
          end_commit hash object_payload has to_line frame_hash frame_size c params fresh_id now
            outcome p in
        ended.1 ≡ ok o
        → (evs : List NewEvent) × (p.1 ≡ ok evs)
          × (o.envelopes ≡ envelopes fresh_id params 0 evs)
          × (ended.0.store.objects ≡ p.0.store.objects)
          × (ended.0.store.queue ≡ p.0.store.queue ++ fsync_frame c.log.seq ∷ [])
  unfolding end_commit
  end_commit-ok c params fresh_id now outcome (w, err e) o h = absurd (cc)
  end_commit-ok c params fresh_id now outcome (w, ok evs) o h =
      let es = envelopes fresh_id params 0 evs in
      let k = append_frame-ok params es now outcome c.log w o h in
      (evs, refl, k.0, (append_frame-kept params es now outcome c.log w).0, k.1)

  end_commit-pins :
      (c : CommitPath) (params : CommitParams) (fresh_id : ℕ → List ℕ) (now : ℕ)
      (outcome : Option ℕ) (p : Work × CommitResult (List NewEvent))
      → (end_commit hash object_payload has to_line frame_hash frame_size c params fresh_id now
          outcome p).0.gc_pins
        ≡ drop_guard p.0.guard
  unfolding end_commit
  end_commit-pins c params fresh_id now outcome (w, err e) = refl
  end_commit-pins c params fresh_id now outcome (w, ok evs) =
      (append_frame-kept params (envelopes fresh_id params 0 evs) now outcome c.log w).1

  Resolves-objects :
      (s t : ObjectStore) → t.objects ≡ s.objects → (r : ℕ) → Resolves has s r → Resolves has t r
  unfolding exists
  Resolves-objects s t h r k = rw h k

  abbrev begun : CommitPath → Work
  begun c = record { store = c.store; guard = (c.gc_pins, []); objects = [] }

  module _ (c : CommitPath) (events : List NewEvent) (params : CommitParams) (fresh_id : ℕ → List ℕ)
      (now : ℕ) (outcome : Option ℕ) where
    abbrev prepared : Work × CommitResult (List NewEvent)
    prepared = prepare_all hash object_payload has params.inline_max events (begun c)

    abbrev committed : CommitPath × CommitResult CommitOutcome
    committed =
        commit hash object_payload has to_line frame_hash frame_size c events params fresh_id now
          outcome

    -- A commit that succeeds creates no dangling reference: after it each reference of its envelopes is in
    -- the store or in the secondary source.
    pub commit-Resolves :
        (o : CommitOutcome)
        → committed.1 ≡ ok o
        → All (λ e. All (Resolves has committed.0.store) e.refs) o.envelopes
    unfolding commit
    commit-Resolves o h =
        let t = end_commit-ok c params fresh_id now outcome prepared o h in
        rw t.2 (
          All-envelopes (All (Resolves has committed.0.store)) fresh_id params 0 t.0 (
            All-mono (λ o. All (Resolves has prepared.0.store) o.refs)
              (λ o. All (Resolves has committed.0.store) o.refs)
              (λ o.
                All-mono (Resolves has prepared.0.store) (Resolves has committed.0.store)
                  (Resolves-objects prepared.0.store committed.0.store t.3) o.refs)
              t.0
              (prepare_all-Resolves hash object_payload has params.inline_max events t.0 (begun c)
                t.1)))

    -- A commit that succeeds has sent the sync of each object that it added, and right behind it one of the
    -- directory, and then the sync of its frame, and nothing else, to the one queue that runs them in order.
    pub commit-queue :
        (o : CommitOutcome)
        → committed.1 ≡ ok o
        → (added : List ℕ) × ((d : ℕ)
            → exists committed.0.store d ≡ (exists c.store d || contains d added))
          × (committed.0.store.queue
              ≡ (c.store.queue ++ syncs_of added) ++ fsync_frame c.log.seq ∷ [])
    unfolding commit exists
    commit-queue o h =
        let t = end_commit-ok c params fresh_id now outcome prepared o h in
        let g = prepare_all-Grows hash object_payload has params.inline_max events (begun c) in
        (g.added, λ d. rw t.3 (g.grown d), t.4 ∙ ap (λ q. q ++ fsync_frame c.log.seq ∷ []) g.queued)

    -- However a commit ends, it leaves no digest pinned that was not pinned before.
    pub commit-unpinned :
        (d : ℕ) → contains d c.gc_pins ≡ false → contains d committed.0.gc_pins ≡ false
    unfolding commit
    commit-unpinned d h =
        let g = prepare_all-Grows hash object_payload has params.inline_max events (begun c) in
        rw (end_commit-pins c params fresh_id now outcome prepared)
          (g.unpinned d (contains-drop_guard d (c.gc_pins, []) ∙ h))
