-- ===== src/Kernel/Commit.antt =====
-- `CommitPath::commit` of crates/kanbei-kernel/src/commit.rs. The store and the log share one durability
-- queue, which the log is handed before the frame and gives back after it. A JSON payload is its text;
-- `object_payload` is the JSON object that names a digest, `has` is the secondary source of references,
-- and `fresh_id` numbers the fresh identities. Fault injection is left out.
use kanbei.Base.{
  ℕ, ◌+◌, ◌++◌, ◌||◌, Bool, Option, none, some, List, [], ◌∷◌, if◌then◌else◌, ltb, length, add64,
}
use kanbei.Core.Envelope.{Envelope, envelope_schema}
use kanbei.Objects.{Bytes, ObjectStore, InstallResult, install, exists}
use kanbei.Log.Types.{Line, Meta, MetaBody, Profile, AppendLog, AppendError, LogResult}
use kanbei.Log.Writer.{append}
use kanbei.Kernel.Pins.{pin, drop_guard}

pub record NewEvent : Type 0 where
  pub kind : List ℕ
  pub payload_schema : ℕ
  pub payload : Bytes
  pub objects : List Bytes
  pub refs : List ℕ

pub record CommitParams : Type 0 where
  pub profile : Profile
  pub next_seq : ℕ
  pub current_snapshot : Option ℕ
  pub inline_max : ℕ

pub data CommitError : Type 0 where
  missing_object : ℕ → CommitError
  object_too_large : ℕ → CommitError
  append_failed : AppendError → CommitError

pub data CommitResult {ℓ} (A : Type ℓ) : Type ℓ where
  ok : A → CommitResult A
  err : CommitError → CommitResult A

pub record CommitOutcome : Type 0 where
  pub first_seq : ℕ
  pub last_seq : ℕ
  pub count : ℕ
  pub frame_len : ℕ
  pub objects : List ℕ
  pub pre_snapshot : Option ℕ
  pub envelopes : List Envelope

-- What the object phase changes: the store, the pins with their guard, and the digests installed.
pub record Work : Type 0 where
  pub store : ObjectStore
  pub guard : List ℕ × List ℕ
  pub objects : List ℕ

-- Steps that change the work and may fail; the first failure ends them, and the work done stays.
abbrev pub Commits {ℓ} : Type ℓ → Type ℓ
Commits A = Work → Work × CommitResult A

unfoldable pub continue_with {ℓ} :
    {A B : Type ℓ} → (A → Commits B) → Work × CommitResult A → Work × CommitResult B
continue_with f (w, ok a) = f a w
continue_with f (w, err e) = (w, err e)

infixl 5 ◌>>=◌
abbrev pub ◌>>=◌ {ℓ} : {A B : Type ℓ} → Commits A → (A → Commits B) → Commits B
(m >>= f) w = continue_with f (m w)

abbrev pub done {ℓ} : {A : Type ℓ} → A → Commits A
done a w = (w, ok a)

-- The first reference that neither source has.
unfoldable pub first_missing : (ℕ → Bool) → ObjectStore → List ℕ → Option ℕ
unfolding exists
first_missing has store [] = none
first_missing has store (r ∷ rs) =
    let rest = first_missing has store rs in if exists store r || has r then rest else some r

-- The loop over the references.
unfoldable pub check_refs : (ℕ → Bool) → List ℕ → Commits (List ℕ)
unfolding first_missing
check_refs has refs w = elim (first_missing has w.store refs) [
  | none ↦ (w, ok refs)
  | some d ↦ (w, err (missing_object d))
]

-- The digest of an install is noted, and a refused object ends the commit.
unfoldable pub note_install : ObjectStore → InstallResult → Commits ℕ
note_install store (InstallResult.installed d) w =
    (record w { store = store; objects = w.objects ++ d ∷ [] }, ok d)
note_install store (InstallResult.too_large n) w =
    (record w { store = store }, err (object_too_large n))

module _ (hash : Bytes → ℕ) where
  -- Pin and install.
  unfoldable pub install_one : Bytes → Commits ℕ
  unfolding install pin note_install
  install_one bytes w =
      note_install (install hash w.store bytes).0 (install hash w.store bytes).1
        (record w { guard = pin (hash bytes) w.guard })

  -- The loop over the objects of an event, with its references.
  unfoldable pub install_all : List Bytes → List ℕ → Commits (List ℕ)
  unfolding install_one continue_with
  install_all [] refs = done refs
  install_all (b ∷ bs) refs = do d ← install_one b; install_all bs (refs ++ d ∷ [])

  -- The classification of the payload.
  unfoldable pub promote : (ℕ → Bytes) → ℕ → NewEvent → Commits NewEvent
  unfolding install_one continue_with
  promote object_payload inline_max ev =
      if ltb inline_max (length ev.payload)
      then (do
        d ← install_one ev.payload
        done (record ev { payload = object_payload d; refs = ev.refs ++ d ∷ [] }))
      else done ev

module _ (hash : Bytes → ℕ) (object_payload : ℕ → Bytes) (has : ℕ → Bool) where
  -- One event of step 2.
  unfoldable pub prepare : ℕ → NewEvent → Commits NewEvent
  unfolding install_all check_refs promote continue_with
  prepare inline_max ev = do
    installed ← install_all hash ev.objects ev.refs
    refs ← check_refs has installed
    promote hash object_payload inline_max (record ev { refs = refs })

  unfoldable pub prepare_all : ℕ → List NewEvent → Commits (List NewEvent)
  unfolding prepare continue_with
  prepare_all inline_max [] = done []
  prepare_all inline_max (ev ∷ evs) = do
    first ← prepare inline_max ev
    rest ← prepare_all inline_max evs
    done (first ∷ rest)

-- Step 3.
unfoldable pub envelopes : (ℕ → List ℕ) → CommitParams → ℕ → List NewEvent → List Envelope
unfolding add64
envelopes fresh_id params i [] = []
envelopes fresh_id params i (ev ∷ evs) =
    record {
      env = envelope_schema;
      seq = add64 params.next_seq i;
      evt = fresh_id i;
      kind = ev.kind;
      payload_schema = ev.payload_schema;
      payload = ev.payload;
      refs = ev.refs;
      snapshot = params.current_snapshot;
    }
    ∷ envelopes fresh_id params (i + 1) evs

-- The log, the store and the writer pins of a `CommitPath`.
pub record CommitPath : Type 0 where
  pub log : AppendLog
  pub store : ObjectStore
  pub gc_pins : List ℕ

module _ (hash : Bytes → ℕ) (object_payload : ℕ → Bytes) (has : ℕ → Bool)
    (to_line : Envelope → Line) (frame_hash : MetaBody → List Line → ℕ)
    (frame_size : Meta → List Line → ℕ) where
  -- Step 4, and the end of the guard.
  unfoldable pub append_frame :
      CommitParams
      → List Envelope
      → ℕ
      → Option ℕ
      → AppendLog
      → Work
      → CommitPath × CommitResult CommitOutcome
  unfolding append drop_guard
  append_frame params es now outcome log w =
      let r =
        append to_line frame_hash frame_size (record log { queue = w.store.queue }) es
          params.profile now outcome in
      let after : CommitPath = record {
        log = r.0;
        store = record w.store { queue = r.0.queue };
        gc_pins = drop_guard w.guard;
      } in
      elim r.1 [
        | LogResult.err e ↦ (after, err (append_failed e))
        | LogResult.ok plan ↦ (
          after,
          ok (record {
            first_seq = params.next_seq;
            last_seq = plan.last_seq;
            count = plan.count;
            frame_len = plan.frame_len;
            objects = w.objects;
            pre_snapshot = params.current_snapshot;
            envelopes = es;
          }),
        )
      ]

  -- The end of `commit`: an error of the object phase returns at once.
  unfoldable pub end_commit :
      CommitPath
      → CommitParams
      → (ℕ → List ℕ)
      → ℕ
      → Option ℕ
      → Work × CommitResult (List NewEvent)
      → CommitPath × CommitResult CommitOutcome
  unfolding envelopes append_frame drop_guard
  end_commit c params fresh_id now outcome (w, err e) = (
    record {
      log = record c.log { queue = w.store.queue };
      store = w.store;
      gc_pins = drop_guard w.guard;
    },
    err e,
  )
  end_commit c params fresh_id now outcome (w, ok evs) =
      append_frame params (envelopes fresh_id params 0 evs) now outcome c.log w

  -- `commit`.
  unfoldable pub commit :
      CommitPath
      → List NewEvent
      → CommitParams
      → (ℕ → List ℕ)
      → ℕ
      → Option ℕ
      → CommitPath × CommitResult CommitOutcome
  unfolding prepare_all end_commit
  commit c events params fresh_id now outcome = end_commit c params fresh_id now outcome (
      prepare_all hash object_payload has params.inline_max events
        (record { store = c.store; guard = (c.gc_pins, []); objects = [] }))
