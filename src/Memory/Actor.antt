-- ===== src/Memory/Actor.antt =====
-- `MemoryRootActor::propose` of crates/kanbei-memory/src/actor.rs over the object store and the log of the
-- program. A proposal opens the log anew, so the actor holds none between calls. Files are written without I/O
-- errors, the queue may fail; fault injection is left out.
use kanbei.Base.{ℕ, ◌++◌, Option, none, some, List, [], ◌∷◌, length}
use kanbei.Core.Envelope.{Envelope, envelope_schema}
use kanbei.Objects.{ObjectStore, InstallResult, install, dirsync}
use kanbei.Log.Types.{AppendLog, AppendError, LogResult, FramePlan, Profile}
use kanbei.Log.Writer.{append}
use kanbei.Memory.Types.{
  RootManifest, MemoryTransition, MemoryError, too_large, flush_failed, MemoryResult, ok, err,
  Codec, transition_schema,
}
use kanbei.Memory.Check.{MemoryRootActor, Verdict, accepted, stale, check}
use kanbei.Memory.Scan.{ScopeDir, transition_kind, refresh}

pub data TransitionOutcome : Type 0 where
  committed : ℕ → ℕ → TransitionOutcome
  cas_failed : Option ℕ → Option ℕ → List ℕ → TransitionOutcome

-- What a call leaves behind, and its answer.
pub record Call : Type 0 where
  pub dir : ScopeDir
  pub actor : MemoryRootActor
  pub answer : MemoryResult TransitionOutcome

-- The clock, the identity of the event, and the outcomes of the two barriers.
pub record Moment : Type 0 where
  pub now : ℕ
  pub evt : List ℕ
  pub appended : Option ℕ
  pub flushed : Option ℕ

-- An answer that changes neither the store nor the actor.
abbrev pub answered : ScopeDir → MemoryRootActor → MemoryResult TransitionOutcome → Call
answered d a r = record { dir = d; actor = a; answer = r }

-- The answer of the last barrier.
unfoldable pub barrier : Option ℕ → TransitionOutcome → MemoryResult TransitionOutcome
barrier none outcome = ok outcome
barrier (some e) outcome = err (flush_failed e)

-- Steps 9 to 11: the head file, two syncs, the state of the actor, and the barrier.
unfoldable pub advance : ScopeDir → MemoryRootActor → MemoryTransition → ℕ → Moment → Call
unfolding barrier
advance d a t root moment =
    let queue = d.store.queue ++ dirsync ∷ dirsync ∷ [] in
    record {
      dir = record d {
        head_file =
            some (record { schema = 1; root = some root; transition_id = some t.transition_id });
        store = record d.store { queue = queue };
        flushed = length queue;
      };
      actor = record a {
        head = some root;
        head_transition = some t.transition_id;
        seen_keys = a.seen_keys ++ t.idempotency_key ∷ [];
        origins = a.origins ++ (t.origin_session, t.transition_id) ∷ [];
      };
      answer = barrier moment.flushed (committed t.transition_id root);
    }

-- The file, the queue and the flushes of the log are those of the directory again.
unfoldable pub give_back : ScopeDir → AppendLog → ScopeDir
give_back d log = record d {
  file = log.file;
  store = record d.store { queue = log.queue };
  flushed = log.flushed;
}

unfoldable pub after_append :
    ScopeDir
    → MemoryRootActor
    → MemoryTransition
    → ℕ
    → Moment
    → AppendLog × LogResult AppendError FramePlan
    → Call
unfolding give_back advance
after_append d a t root moment (log, LogResult.err e) =
    answered (give_back d log) a (err (MemoryError.append e))
after_append d a t root moment (log, LogResult.ok plan) = advance (give_back d log) a t root moment

module _ (c : Codec) where
  unfoldable pub envelope_of : ℕ → MemoryTransition → RootManifest → Moment → Envelope
  envelope_of seq t m moment = record {
    env = envelope_schema;
    seq = seq;
    evt = moment.evt;
    kind = transition_kind;
    payload_schema = transition_schema;
    payload = c.write_transition t;
    refs = c.hash (c.write_manifest m) ∷ [];
    snapshot = none;
  }

  -- Steps 7 and 8: the manifest is installed and the frame appended.
  unfoldable pub write_frame_for :
      ScopeDir
      → MemoryRootActor
      → AppendLog
      → MemoryTransition
      → RootManifest
      → Moment
      → ObjectStore × InstallResult
      → Call
  unfolding envelope_of after_append append
  write_frame_for d a log t m moment (store, InstallResult.too_large n) =
      answered (record d { store = store }) a (err (too_large n))
  write_frame_for d a log t m moment (store, InstallResult.installed root) =
      after_append (record d { store = store }) a t root moment
        (append c.to_line c.frame_hash c.frame_size (record log { queue = store.queue })
          (envelope_of log.seq t m moment ∷ []) Profile.strict moment.now moment.appended)

  unfoldable pub commit :
      ScopeDir → MemoryRootActor → AppendLog → MemoryTransition → RootManifest → Moment → Call
  unfolding install write_frame_for
  commit d a log t m moment =
      write_frame_for d a log t m moment (install c.hash d.store (c.write_manifest m))

  unfoldable pub decide :
      ScopeDir
      → MemoryRootActor
      → AppendLog
      → MemoryTransition
      → Moment
      → MemoryResult Verdict
      → Call
  unfolding commit
  decide d a log t moment (err e) = answered d a (err e)
  decide d a log t moment (ok (stale expected actual installed)) =
      answered d a (ok (cas_failed expected actual installed))
  decide d a log t moment (ok (accepted m)) = commit d a log t m moment

  unfoldable pub propose_with :
      MemoryRootActor
      → MemoryTransition
      → List ℕ
      → List ℕ
      → Moment
      → ScopeDir × MemoryResult (MemoryRootActor × AppendLog)
      → Call
  unfolding decide check
  propose_with a t claims edges moment (d, err e) = answered d a (err e)
  propose_with a t claims edges moment (d, ok (fresh, log)) =
      decide d fresh log t moment (check c d.store fresh t claims edges)

  unfoldable pub propose :
      ScopeDir → MemoryRootActor → MemoryTransition → List ℕ → List ℕ → Moment → Call
  unfolding refresh propose_with
  propose d a t claims edges moment = propose_with a t claims edges moment (refresh c d a)
