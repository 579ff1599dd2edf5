-- ===== src/Memory/Holding.antt =====
-- What opening, installing and crashing leave of a directory of crates/kanbei-memory/src that holds transitions.
use kanbei.Base.{
  ◌≡◌, ℕ, Bool, some, ◌++◌, refl, sym, subst, inl, inr, false, Bool-cases, Option, none, List, [],
  ◌∷◌,
}
use kanbei.Objects.{Bytes, install, dirsync}
use kanbei.Log.Types.{LogFile}
use kanbei.Log.Reader.{read_tail, scan_tail, stream_loop, lines_of}
use kanbei.Log.Appending.{begin}
use kanbei.Memory.Types.{MemoryScope, MemoryTransition, Codec}
use kanbei.Memory.Fold.{nothing_folded, walk, apply_all, history}
use kanbei.Memory.Growth.{install-Grows}
use kanbei.Memory.Check.{MemoryRootActor}
use kanbei.Memory.Scan.{
  ScopeDir, HeadFile, scan_lines, repair, is_current, head_file_of, open_actor,
}
use kanbei.Memory.Rereading.{noted, actor_at, LogHolds, open_actor-Holds}
use kanbei.Memory.Lineage.{last_root}
use kanbei.Memory.Contents.{StoreHolds-Grows}
use kanbei.Memory.Proposing.{MemoryHolds}
use kanbei.Memory.Answering.{LogHolds-clean, queue-Grows}

-- The process ends: what was written stays, with any bytes behind the log and any head file.
abbrev pub crashed : ScopeDir → List ℕ → Option HeadFile → ScopeDir
crashed d bytes head = record d { file = record d.file { tail = bytes }; head_file = head }

abbrev pub empty_dir : ScopeDir
empty_dir = record {
  file = record { stored = []; tail = [] };
  head_file = none;
  store = record { objects = []; quarantine = []; queue = []; installs = 0; dirsyncs = 0 };
  flushed = 0;
}

LogHolds-tail :
    (c : Codec) (file : LogFile) (ts : List MemoryTransition) (bytes : List ℕ) (is_torn : Bool)
    → read_tail bytes ≡ some is_torn
    → LogHolds c file ts
    → LogHolds c (record file { tail = bytes }) ts
unfolding scan_tail
LogHolds-tail c file ts bytes is_torn h w = record {
  state = w.state;
  reads = w.reads;
  last = w.last;
  counted = w.counted;
  scanned = w.scanned;
  torn_tail = is_torn;
  tail = rw (scan_tail, h) refl;
}

-- A crash loses no transition.
pub crashed-Holds :
    (c : Codec) (d : ScopeDir) (ts : List MemoryTransition) (bytes : List ℕ) (is_torn : Bool)
    (head : Option HeadFile)
    → read_tail bytes ≡ some is_torn
    → MemoryHolds c d ts
    → MemoryHolds c (crashed d bytes head) ts
crashed-Holds c d ts bytes is_torn head h w = record {
  log = LogHolds-tail c d.file ts bytes is_torn h w.log;
  store = w.store;
  linear = w.linear;
  once = w.once;
}

pub empty_dir-Holds : (c : Codec) → MemoryHolds c empty_dir []
unfolding stream_loop scan_tail scan_lines lines_of walk apply_all history last_root noted
empty_dir-Holds c = record {
  log = record {
    state = begin;
    reads = refl;
    last = refl;
    counted = refl;
    scanned = refl;
    torn_tail = false;
    tail = refl;
  };
  store = record {
    manifests = [];
    walked = refl;
    path = refl;
    folding = nothing_folded;
    folded = refl;
    loads = record { claims = tt; retracted = tt };
  };
  linear = tt;
  once = tt;
}

repair-Holds :
    (c : Codec) (d : ScopeDir) (ts : List MemoryTransition) (a : MemoryRootActor)
    → MemoryHolds c d ts
    → MemoryHolds c (repair d a) ts
unfolding repair
repair-Holds c d ts a w = elim (Bool-cases (is_current (head_file_of a) d.head_file)) [
  | inl e ↦ rw e w
  | inr e ↦ rw e (record {
    log = w.log;
    store =
        StoreHolds-Grows c d.store (record d.store { queue = d.store.queue ++ dirsync ∷ [] })
          (queue-Grows c d.store (d.store.queue ++ dirsync ∷ [])) ts w.store;
    linear = w.linear;
    once = w.once;
  })
]

cut-Holds :
    (c : Codec) (d : ScopeDir) (ts : List MemoryTransition)
    → MemoryHolds c d ts
    → MemoryHolds c (record d { file = record d.file { tail = [] } }) ts
cut-Holds c d ts w = record {
  log = LogHolds-clean c d.file ts w.log;
  store = w.store;
  linear = w.linear;
  once = w.once;
}

pub opened-Holds :
    (c : Codec) (d : ScopeDir) (ts : List MemoryTransition) (scope : MemoryScope)
    → MemoryHolds c d ts
    → MemoryHolds c (open_actor c d scope).0 ts
opened-Holds c d ts scope w =
    subst (λ x. MemoryHolds c x ts) (sym (λ i. (open_actor-Holds c d ts w.log scope i).0))
      (repair-Holds c (record d { file = record d.file { tail = [] } }) ts (actor_at scope ts)
        (cut-Holds c d ts w))

pub installed-Holds :
    (c : Codec) (d : ScopeDir) (ts : List MemoryTransition) (b : Bytes)
    → MemoryHolds c d ts
    → MemoryHolds c (record d { store = (install c.hash d.store b).0 }) ts
installed-Holds c d ts b w = record {
  log = w.log;
  store =
      StoreHolds-Grows c d.store (install c.hash d.store b).0 (install-Grows c d.store b) ts
        w.store;
  linear = w.linear;
  once = w.once;
}
