-- ===== src/Memory/Scan.antt =====
-- What `MemoryRootActor` of crates/kanbei-memory/src/actor.rs reads from the directory of its scope: the scan of
-- the log, the refresh at the start of a proposal, and `open`. What is on disk is a `ScopeDir`, which several
-- actors may share; a missing log is an empty one. Files are written without I/O errors.
use kanbei.Base.{
  ℕ, ◌++◌, ◌&&◌, Bool, true, false, Option, none, some, List, [], ◌∷◌, if◌then◌else◌, ◌==◌, length,
  contains,
}
use kanbei.Objects.{ObjectStore, dirsync}
use kanbei.Log.Types.{Line, LogFile, AppendLog, LogResult, Recovered}
use kanbei.Log.Writer.{open_log}
use kanbei.Log.Reader.{recover, for_each_frame, lines_of}
use kanbei.Memory.Types.{
  IdempotencyKey, MemoryScope, MemoryTransition, MemoryError, corrupt, unopenable, MemoryResult, ok,
  err, ◌>>=◌, ◌>>◌, ensure, or_error, Codec, transition_schema,
}
use kanbei.Memory.Fold.{fold}
use kanbei.Memory.Check.{MemoryRootActor, same_root}

pub record HeadFile : Type 0 where
  pub schema : ℕ
  pub root : Option ℕ
  pub transition_id : Option ℕ

-- The directory of a scope: the log, `head.json` where it is there and readable, the objects with the queue
-- of the writer, and how much of it the last barrier has waited for.
pub record ScopeDir : Type 0 where
  pub file : LogFile
  pub head_file : Option HeadFile
  pub store : ObjectStore
  pub flushed : ℕ

pub record LogScan : Type 0 where
  pub last : Option (ℕ × ℕ)
  pub keys : List IdempotencyKey
  pub origins : List (ℕ × ℕ)

abbrev pub no_scan : LogScan
no_scan = record { last = none; keys = []; origins = [] }

-- "memory_transition".
abbrev pub transition_kind : List ℕ
transition_kind =
    b'm' ∷ b'e' ∷ b'm' ∷ b'o' ∷ b'r' ∷ b'y' ∷ b'_' ∷ b't' ∷ b'r' ∷ b'a' ∷ b'n' ∷ b's' ∷ b'i' ∷ b't'
    ∷ b'i' ∷ b'o' ∷ b'n' ∷ []

unfoldable pub same_bytes : List ℕ → List ℕ → Bool
same_bytes [] [] = true
same_bytes (a ∷ as') (b ∷ bs) = let rest = same_bytes as' bs in if a == b then rest else false
same_bytes _ _ = false

abbrev pub stream_name : ℕ
stream_name = 0

-- A transition is noted by the scan.
unfoldable pub note : MemoryTransition → LogScan → LogScan
note t scan = record {
  last = some (t.accepted_new_root, t.transition_id);
  keys = scan.keys ++ t.idempotency_key ∷ [];
  origins = scan.origins ++ (t.origin_session, t.transition_id) ∷ [];
}

-- The actor with what the log says.
unfoldable pub adopt : LogScan → MemoryRootActor → MemoryRootActor
adopt scan a = elim scan.last [
  | none ↦ record a { seen_keys = scan.keys; origins = scan.origins }
  | some (root, id) ↦ record a {
    head = some root;
    head_transition = some id;
    seen_keys = scan.keys;
    origins = scan.origins;
  }
]

-- The head file that the actor stands for, and the comparison with the one that is there.
unfoldable pub head_file_of : MemoryRootActor → HeadFile
head_file_of a = record { schema = 1; root = a.head; transition_id = a.head_transition }

unfoldable pub same_head : HeadFile → HeadFile → Bool
unfolding same_root
same_head g h =
    g.schema == h.schema && (same_root g.root h.root && same_root g.transition_id h.transition_id)

unfoldable pub is_current : HeadFile → Option HeadFile → Bool
unfolding same_head
is_current expected none = false
is_current expected (some h) = same_head h expected

-- The repair of the head file.
unfoldable pub repair : ScopeDir → MemoryRootActor → ScopeDir
unfolding head_file_of is_current
repair d a = if is_current (head_file_of a) d.head_file then d else record d {
  head_file = some (head_file_of a);
  store = record d.store { queue = d.store.queue ++ dirsync ∷ [] };
}

unfoldable pub finish_open :
    ScopeDir → MemoryResult MemoryRootActor → ScopeDir × MemoryResult MemoryRootActor
unfolding repair
finish_open d (err e) = (d, err e)
finish_open d (ok a) = (repair d a, ok a)

abbrev pub unopened : MemoryScope → MemoryRootActor
unopened scope = record {
  scope = scope;
  head = none;
  head_transition = none;
  seen_keys = [];
  origins = [];
}

-- `scan_backlink_candidates`.
unfoldable pub scan_backlink_candidates : ℕ → List (ℕ × ℕ) → List ℕ
scan_backlink_candidates session [] = []
scan_backlink_candidates session ((s, id) ∷ origins) =
    let rest = scan_backlink_candidates session origins in if s == session then id ∷ rest else rest

unfoldable pub take_over : Option LogScan → MemoryRootActor → MemoryRootActor
unfolding adopt
take_over none a = a
take_over (some scan) a = adopt scan a

module _ (c : Codec) where
  -- One line of `scan_log`.
  unfoldable pub read_line : Line → MemoryResult MemoryTransition
  unfolding same_bytes
  read_line line = do
    r ← or_error (c.line_record line) corrupt
    ensure (same_bytes r.0 transition_kind) corrupt
    t ← or_error (c.read_transition r.1) corrupt
    ensure (t.schema == transition_schema) corrupt
    ok t

  unfoldable pub scan_lines : List Line → LogScan → MemoryResult LogScan
  unfolding read_line note
  scan_lines [] scan = ok scan
  scan_lines (l ∷ ls) scan = do t ← read_line l; scan_lines ls (note t scan)

  unfoldable pub scan_log : LogFile → MemoryResult LogScan
  unfolding scan_lines
  scan_log file = elim (for_each_frame c.line_seq c.frame_hash file) [
    | LogResult.err e ↦ err (MemoryError.log e)
    | LogResult.ok r ↦ scan_lines (lines_of r.1) no_scan
  ]

  -- `recover_or_fresh`: the file, and the report.
  unfoldable pub recover_or_fresh : LogFile → LogFile × MemoryResult Recovered
  recover_or_fresh file =
      let r = recover c.line_seq c.frame_hash file in
      (r.0, elim r.1 [ LogResult.err e ↦ err (MemoryError.log e) | LogResult.ok n ↦ ok n ])

  -- The scan of a log with events.
  unfoldable pub scan_events : Recovered → LogFile → MemoryResult (Option LogScan)
  unfolding scan_log
  scan_events n file = if n.events == 0 then ok none else (do scan ← scan_log file; ok (some scan))

  -- `AppendLog::open`, on the queue of the store.
  unfoldable pub open_stream : ScopeDir → MemoryResult AppendLog
  open_stream d =
      or_error (open_log c.frame_hash d.file stream_name d.store.queue d.flushed) unopenable

  -- Step 0: the directory with a torn frame cut off, and the log with what it says.
  unfoldable pub reload :
      ScopeDir
      → MemoryRootActor
      → LogFile × MemoryResult Recovered
      → ScopeDir × MemoryResult (MemoryRootActor × AppendLog)
  unfolding scan_events take_over open_stream
  reload d a (file, r) = (
    record d { file = file },
    do
      n ← r
      scan ← scan_events n file
      log ← open_stream (record d { file = file })
      ok (take_over scan a, log),
  )

  unfoldable pub refresh :
      ScopeDir → MemoryRootActor → ScopeDir × MemoryResult (MemoryRootActor × AppendLog)
  unfolding recover_or_fresh reload
  refresh d a = reload d a (recover_or_fresh d.file)

  -- `open`: the head file is written again where it differs from the log.
  unfoldable pub open_with :
      ScopeDir
      → MemoryScope
      → LogFile × MemoryResult Recovered
      → ScopeDir × MemoryResult MemoryRootActor
  unfolding open_stream scan_events take_over finish_open
  open_with d scope (file, r) =
      finish_open (record d { file = file })
        (do
          n ← r
          log ← open_stream (record d { file = file })
          scan ← scan_events n file
          ok (take_over scan (unopened scope)))

  unfoldable pub open_actor : ScopeDir → MemoryScope → ScopeDir × MemoryResult MemoryRootActor
  unfolding recover_or_fresh open_with
  open_actor d scope = open_with d scope (recover_or_fresh d.file)

  -- `contains_root`: the history of the fold of the head has the root.
  unfoldable pub contains_root : ScopeDir → MemoryRootActor → ℕ → Bool
  unfolding fold
  contains_root d a root = elim a.head [
    | none ↦ false
    | some head ↦ elim (fold c d.store (length a.seen_keys) (some head)) [
      | err e ↦ false
      | ok folded ↦ contains root folded.history
    ]
  ]
