-- ===== src/Memory/Losing.antt =====
-- The loss of power under crates/kanbei-memory/src/actor.rs: what no barrier of the durability queue has waited
-- for may be gone. The syncs that a barrier has waited for have taken effect.
use kanbei.Base.{
  ℕ, ◌+◌, ◌-◌, ◌++◌, ◌||◌, ◌≡◌, refl, ap, Bool, true, false, not, ◌==◌, Option, some, List, [], ◌∷◌,
  length, keep, take, take-long, skip, skip-length, arith,
}
use kanbei.Objects.{
  Bytes, ObjectStore, InstallResult, install, SyncOp, fsync_object, fsync_frame, dirsync,
}
use kanbei.Log.Types.{AppendLog, AppendError, LogResult, FramePlan, Profile}
use kanbei.Log.Reader.{read_tail}
use kanbei.Log.Writer.{append}
use kanbei.Memory.Types.{RootManifest, MemoryTransition, MemoryResult, ok, err, Codec}
use kanbei.Memory.Check.{MemoryRootActor, Verdict, accepted, stale, check}
use kanbei.Memory.Scan.{ScopeDir, HeadFile, refresh}
use kanbei.Memory.Actor.{
  Moment, committed, after_append, advance, give_back, write_frame_for, commit, decide,
  propose_with, propose, envelope_of,
}
use kanbei.Memory.Proposing.{MemoryHolds}
use kanbei.Memory.Contents.{StoreHolds-Grows}
use kanbei.Memory.Answering.{queue-Grows}
use kanbei.Memory.Holding.{crashed-Holds}

-- The syncs that no barrier has waited for.
abbrev pub waiting : ScopeDir → List SyncOp
waiting d = skip d.flushed d.store.queue

unfoldable pub waits_for : ℕ → List SyncOp → Bool
waits_for d [] = false
waits_for d (fsync_object e ∷ ops) = d == e || waits_for d ops
waits_for d (fsync_frame n ∷ ops) = waits_for d ops
waits_for d (dirsync ∷ ops) = waits_for d ops

unfoldable pub frames_in : List SyncOp → ℕ
frames_in [] = 0
frames_in (fsync_frame n ∷ ops) = frames_in ops + 1
frames_in (fsync_object e ∷ ops) = frames_in ops
frames_in (dirsync ∷ ops) = frames_in ops

-- What a loss of power spares of what it may take: some objects, the first frames, and bytes of the next;
-- and any head file.
pub record Loss : Type 0 where
  pub spares : ℕ → Bool
  pub frames : ℕ
  pub bytes : List ℕ
  pub head : Option HeadFile

-- The objects and the frames at the end of the log whose syncs wait may be gone; the queue begins anew.
unfoldable pub power_lost : Loss → ScopeDir → ScopeDir
unfolding waits_for frames_in skip take keep
power_lost x d =
    let ops = waiting d in
    record {
      file = record {
        stored = take ((length d.file.stored - frames_in ops) + x.frames) d.file.stored;
        tail = x.bytes;
      };
      head_file = x.head;
      store = record d.store {
        objects = keep (λ (o : ℕ × Bytes). not (waits_for o.0 ops) || x.spares o.0) d.store.objects;
        queue = [];
      };
      flushed = 0;
    }

keep-all {ℓ} : {A : Type ℓ} (xs : List A) → keep (λ x. true) xs ≡ xs
unfolding keep
keep-all [] = refl
keep-all (x ∷ xs) = ap (λ ys. x ∷ ys) (keep-all xs)

-- What is left where no sync waits.
abbrev left_of : Loss → ScopeDir → ScopeDir
left_of x d = record {
  file = record { stored = d.file.stored; tail = x.bytes };
  head_file = x.head;
  store = record d.store { queue = [] };
  flushed = 0;
}

power_lost-synced : (x : Loss) (d : ScopeDir) → waiting d ≡ [] → power_lost x d ≡ left_of x d
unfolding power_lost waits_for frames_in
power_lost-synced x d h =
    rw (power_lost, h, keep-all d.store.objects)
      (ap (λ s. record (left_of x d) { file = record { stored = s; tail = x.bytes } })
        (take-long ((length d.file.stored - 0) + x.frames) d.file.stored (omega arith)))

pub power_lost-Holds :
    (c : Codec) (x : Loss) (d : ScopeDir) (ts : List MemoryTransition) (is_torn : Bool)
    → waiting d ≡ []
    → read_tail x.bytes ≡ some is_torn
    → MemoryHolds c d ts
    → MemoryHolds c (power_lost x d) ts
power_lost-Holds c x d ts is_torn h tail w =
    let kept = crashed-Holds c d ts x.bytes is_torn x.head tail w in
    rw (power_lost-synced x d h) (record {
      log = kept.log;
      store =
          StoreHolds-Grows c d.store (record d.store { queue = [] }) (queue-Grows c d.store []) ts
            w.store;
      linear = kept.linear;
      once = kept.once;
    })

module _ (c : Codec) (t : MemoryTransition) (moment : Moment) (id root : ℕ) where
  after_append-synced :
      (d : ScopeDir) (a : MemoryRootActor) (named : ℕ)
      (r : AppendLog × LogResult AppendError FramePlan)
      → (after_append d a t named moment r).answer ≡ ok (committed id root)
      → waiting (after_append d a t named moment r).dir ≡ []
  unfolding after_append advance give_back
  after_append-synced d a named (log, LogResult.err e) h = absurd (cc)
  after_append-synced d a named (log, LogResult.ok plan) h =
      skip-length (log.queue ++ dirsync ∷ dirsync ∷ [])

  write_frame_for-synced :
      (d : ScopeDir) (a : MemoryRootActor) (log : AppendLog) (m : RootManifest)
      (r : ObjectStore × InstallResult)
      → (write_frame_for c d a log t m moment r).answer ≡ ok (committed id root)
      → waiting (write_frame_for c d a log t m moment r).dir ≡ []
  unfolding write_frame_for
  write_frame_for-synced d a log m (s, InstallResult.too_large n) h = absurd (cc)
  write_frame_for-synced d a log m (s, InstallResult.installed named) h =
      after_append-synced (record d { store = s }) a named
        (append c.to_line c.frame_hash c.frame_size (record log { queue = s.queue })
          (envelope_of c log.seq t m moment ∷ []) Profile.strict moment.now moment.appended)
        h

  decide-synced :
      (d : ScopeDir) (a : MemoryRootActor) (log : AppendLog) (v : MemoryResult Verdict)
      → (decide c d a log t moment v).answer ≡ ok (committed id root)
      → waiting (decide c d a log t moment v).dir ≡ []
  unfolding decide commit
  decide-synced d a log (err e) h = absurd (cc)
  decide-synced d a log (ok (stale x y ds)) h = absurd (cc)
  decide-synced d a log (ok (accepted m)) h =
      write_frame_for-synced d a log m (install c.hash d.store (c.write_manifest m)) h

  propose_with-synced :
      (a : MemoryRootActor) (claims edges : List ℕ)
      (p : ScopeDir × MemoryResult (MemoryRootActor × AppendLog))
      → (propose_with c a t claims edges moment p).answer ≡ ok (committed id root)
      → waiting (propose_with c a t claims edges moment p).dir ≡ []
  unfolding propose_with
  propose_with-synced a claims edges (d, err e) h = absurd (cc)
  propose_with-synced a claims edges (d, ok (fresh, log)) h =
      decide-synced d fresh log (check c d.store fresh t claims edges) h

  -- A proposal that is answered as committed leaves no sync that the barriers have not waited for.
  pub propose-synced :
      (d : ScopeDir) (a : MemoryRootActor) (claims edges : List ℕ)
      → (propose c d a t claims edges moment).answer ≡ ok (committed id root)
      → waiting (propose c d a t claims edges moment).dir ≡ []
  unfolding propose
  propose-synced d a claims edges h = propose_with-synced a claims edges (refresh c d a) h
