-- ===== src/Kernel/Growth.antt =====
-- What the object phase of crates/kanbei-kernel/src/commit.rs may do to the store, the queue and the pins.
use mathlib.Core.List.{append_assoc, append-nil}
use kanbei.Base.{
  ℕ, ◌≡◌, ◌||◌, contains-append, refl, sym, ap, ◌∙◌, ◌⊎◌, inl, inr, ◌++◌, true, false, List, [],
  ◌∷◌, ==_refl, contains, arith, Bool-cases, ltb, length,
}
use kanbei.Base.Map.{lookup-insert}
use kanbei.Objects.{
  Bytes, ObjectStore, SyncOp, fsync_object, dirsync, InstallResult, install, exists,
  max_object_bytes,
}
use kanbei.Kernel.Pins.{pin, drop_guard, drop_guard-pin}
use kanbei.Kernel.Commit.{
  Work, Commits, continue_with, CommitResult, CommitError, ok, err, note_install, install_one,
  install_all,
}

-- The syncs of the installs of some objects: of each object, then of the directory.
unfoldable pub syncs_of : List ℕ → List SyncOp
syncs_of [] = []
syncs_of (d ∷ ds) = fsync_object d ∷ dirsync ∷ syncs_of ds

syncs_of-append : (ds es : List ℕ) → syncs_of (ds ++ es) ≡ syncs_of ds ++ syncs_of es
unfolding syncs_of
syncs_of-append [] es = refl
syncs_of-append (d ∷ ds) es = ap (λ ops. fsync_object d ∷ dirsync ∷ ops) (syncs_of-append ds es)

-- Some objects are added, and none goes; exactly their syncs are queued; and nothing is pinned once the
-- guard is gone that was not pinned before.
pub record Grows (w v : Work) : Type 0 where
  pub added : List ℕ
  pub grown : (d : ℕ) → exists v.store d ≡ (exists w.store d || contains d added)
  pub queued : v.store.queue ≡ w.store.queue ++ syncs_of added
  pub unpinned :
      (d : ℕ) → contains d (drop_guard w.guard) ≡ false → contains d (drop_guard v.guard) ≡ false

pub Grows-stays :
    {w v : Work} → Grows w v → (d : ℕ) → exists w.store d ≡ true → exists v.store d ≡ true
Grows-stays g d h = ground (arith, g.grown d, h)

pub Grows-refl : (w : Work) → Grows w w
unfolding syncs_of contains
Grows-refl w = record {
  added = [];
  grown = λ d. ground arith;
  queued = sym (append-nil w.store.queue);
  unpinned = λ d h. h;
}

pub Grows-trans : {u v w : Work} → Grows u v → Grows v w → Grows u w
Grows-trans {u} g h = record {
  added = g.added ++ h.added;
  grown = λ d. ground (arith, h.grown d, g.grown d, contains-append d g.added h.added);
  queued =
      h.queued
      ∙ ap (λ q. q ++ syncs_of h.added) g.queued
      ∙ append_assoc u.store.queue (syncs_of g.added) (syncs_of h.added)
      ∙ ap (λ q. u.store.queue ++ q) (sym (syncs_of-append g.added h.added));
  unpinned = λ d k. h.unpinned d (g.unpinned d k);
}

note_install-kept :
    (s : ObjectStore) (r : InstallResult) (w : Work)
    → ((note_install s r w).0.store ≡ s) × ((note_install s r w).0.guard ≡ w.guard)
unfolding note_install
note_install-kept s (InstallResult.installed d) w = (refl, refl)
note_install-kept s (InstallResult.too_large n) w = (refl, refl)

note_install-ok :
    (s : ObjectStore) (r : InstallResult) (w : Work) (d : ℕ)
    → (note_install s r w).1 ≡ ok d
    → r ≡ InstallResult.installed d
unfolding note_install
note_install-ok s (InstallResult.installed e) w d h = cc
note_install-ok s (InstallResult.too_large n) w d h = absurd (cc)

pub Commit-cases {ℓ} :
    {A : Type ℓ} (r : CommitResult A) → ((a : A) × (r ≡ ok a)) ⊎ ((e : CommitError) × (r ≡ err e))
Commit-cases (ok a) = inl (a, refl)
Commit-cases (err e) = inr (e, refl)

-- A step after a step.
pub Grows-then {ℓ} :
    {A B : Type ℓ} (w : Work) (f : A → Commits B) (r : Work × CommitResult A)
    → Grows w r.0
    → ((a : A) (v : Work) → Grows v (f a v).0)
    → Grows w (continue_with f r).0
unfolding continue_with
Grows-then w f (v, ok a) g h = Grows-trans g (h a v)
Grows-then w f (v, err e) g h = g

pub then-ok {ℓ} :
    {A B : Type ℓ} (f : A → Commits B) (r : Work × CommitResult A) (b : B)
    → (continue_with f r).1 ≡ ok b
    → (a : A) × (r.1 ≡ ok a) × ((f a r.0).1 ≡ ok b) × ((continue_with f r).0 ≡ (f a r.0).0)
unfolding continue_with
then-ok f (v, ok a) b h = (a, refl, h, refl)
then-ok f (v, err e) b h = absurd (cc)

module _ (hash : Bytes → ℕ) where
  install-exists :
      (s : ObjectStore) (b : Bytes) (d : ℕ)
      → exists s d ≡ true
      → exists (install hash s b).0 d ≡ true
  unfolding install exists
  install-exists s b d h = ground (arith, h, lookup-insert (hash b) d b s.objects)

  install-installed :
      (s : ObjectStore) (b : Bytes) (d : ℕ)
      → (install hash s b).1 ≡ InstallResult.installed d
      → exists (install hash s b).0 d ≡ true
  unfolding install exists
  install-installed s b d h =
      ground (arith, h, lookup-insert (hash b) (hash b) b s.objects, ==_refl (hash b))

  -- What one install adds, and its syncs.
  install-queue :
      (s : ObjectStore) (b : Bytes)
      → (added : List ℕ) × ((d : ℕ)
          → exists (install hash s b).0 d ≡ (exists s d || contains d added))
        × ((install hash s b).0.queue ≡ s.queue ++ syncs_of added)
  unfolding install exists contains syncs_of
  install-queue s b = elim (Bool-cases (ltb max_object_bytes (length b))) [
    | inl large ↦ ([], λ d. ground (arith, large), rw large (sym (append-nil s.queue)))
    | inr small ↦ elim (Bool-cases (exists s (hash b))) [
      | inl held ↦
          ([], λ d. ground (arith, small, held), rw (small, held) (sym (append-nil s.queue)))
      | inr free ↦ (
        hash b ∷ [],
        λ d. ground (arith, small, free, lookup-insert (hash b) d b s.objects),
        rw (small, free) refl,
      )
    ]
  ]

  install_one-store :
      (b : Bytes) (w : Work) → (install_one hash b w).0.store ≡ (install hash w.store b).0
  unfolding install_one
  install_one-store b w =
      (note_install-kept (install hash w.store b).0 (install hash w.store b).1
        (record w { guard = pin (hash b) w.guard })).0

  install_one-guard : (b : Bytes) (w : Work) → (install_one hash b w).0.guard ≡ pin (hash b) w.guard
  unfolding install_one
  install_one-guard b w =
      (note_install-kept (install hash w.store b).0 (install hash w.store b).1
        (record w { guard = pin (hash b) w.guard })).1

  pub install_one-Grows : (b : Bytes) (w : Work) → Grows w (install_one hash b w).0
  install_one-Grows b w =
      let q = install-queue w.store b in
      record {
        added = q.0;
        grown = λ d. rw (install_one-store b w) (q.1 d);
        queued = rw (install_one-store b w) q.2;
        unpinned =
            λ d h. rw (install_one-guard b w, drop_guard-pin d (hash b) w.guard, h) (ground arith);
      }

  pub install_one-ok :
      (b : Bytes) (w : Work) (d : ℕ)
      → (install_one hash b w).1 ≡ ok d
      → exists (install_one hash b w).0.store d ≡ true
  unfolding install_one
  install_one-ok b w d h = rw (install_one-store b w) (
      install-installed w.store b d (
        note_install-ok (install hash w.store b).0 (install hash w.store b).1
          (record w { guard = pin (hash b) w.guard }) d h))

  pub install_all-Grows :
      (bs : List Bytes) (refs : List ℕ) (w : Work) → Grows w (install_all hash bs refs w).0
  unfolding install_all
  install_all-Grows [] refs w = Grows-refl w
  install_all-Grows (b ∷ bs) refs w =
      Grows-then w (λ d. install_all hash bs (refs ++ d ∷ [])) (install_one hash b w)
        (install_one-Grows b w) (λ d v. install_all-Grows bs (refs ++ d ∷ []) v)
