-- ===== src/Objects.antt =====
-- The object store of crates/kanbei-objects/src/lib.rs: a directory of files named by digests, with the
-- quarantine directory beside it. A digest is its bytes read as one number; file operations succeed
-- (their `NotFound` branches are modelled, other I/O errors are not), and `hash` (blake3) is a
-- parameter.
pub mod Laws
mod Examples
use kanbei.Base.{
  ℕ, ◌+◌, ◌*◌, ◌≡◌, ◌++◌, Bool, true, false, not, Option, none, some, List, [], ◌∷◌, if◌then◌else◌,
  ltb, leb, ◌==◌, is_some, length, keep, contains, is_empty,
}
use kanbei.Base.Map.{Map, lookup, insert, remove, keys}

abbrev pub Bytes : Type 0
Bytes = List ℕ

abbrev pub max_object_bytes : ℕ
max_object_bytes = 64 * 1024 * 1024

-- `SyncOp` of crates/kanbei-core/src/queue.rs, with the file or directory that it syncs.
pub data SyncOp : Type 0 where
  fsync_object : ℕ → SyncOp
  fsync_frame : ℕ → SyncOp
  dirsync : SyncOp

pub record ObjectStore : Type 0 where
  pub objects : Map Bytes
  pub quarantine : Map (Bytes × ℕ)
  pub queue : List SyncOp
  pub installs : ℕ
  pub dirsyncs : ℕ

pub data ObjectError : Type 0 where
  missing : ℕ → ObjectError
  corruption : ℕ → ℕ → ObjectError
  quota : ℕ → ℕ → ObjectError

pub data ObjectResult {ℓ} (A : Type ℓ) : Type ℓ where
  ok : A → ObjectResult A
  err : ObjectError → ObjectResult A

pub data InstallResult : Type 0 where
  installed : ℕ → InstallResult
  too_large : ℕ → InstallResult

unfoldable pub exists : ObjectStore → ℕ → Bool
exists s d = is_some (lookup d s.objects)

module _ (hash : Bytes → ℕ) where
  unfoldable pub install : ObjectStore → Bytes → ObjectStore × InstallResult
  unfolding exists
  install s bytes =
      if ltb max_object_bytes (length bytes)
      then (s, too_large (length bytes))
      else if exists s (hash bytes)
      then (s, installed (hash bytes))
      else (
        record s {
          objects = insert (hash bytes) bytes s.objects;
          queue = s.queue ++ fsync_object (hash bytes) ∷ dirsync ∷ [];
          installs = s.installs + 1;
          dirsyncs = s.dirsyncs + 1;
        },
        installed (hash bytes),
      )

  unfoldable pub get : ObjectStore → ℕ → ObjectResult Bytes
  get s want = elim (lookup want s.objects) [
    | none ↦ err (missing want)
    | some bytes ↦
        if ltb max_object_bytes (length bytes)
        then err (quota want (length bytes))
        else if hash bytes == want
        then ok bytes
        else err (corruption want (hash bytes))
  ]

-- `out.sort()`.
unfoldable pub insert_sorted : ℕ → List ℕ → List ℕ
insert_sorted d [] = d ∷ []
insert_sorted d (e ∷ es) = if leb d e then d ∷ e ∷ es else e ∷ insert_sorted d es

unfoldable pub sort : List ℕ → List ℕ
unfolding insert_sorted
sort [] = []
sort (d ∷ ds) = insert_sorted d (sort ds)

unfoldable pub scan : ObjectStore → List ℕ
scan s = sort (keys s.objects)

unfoldable pub quarantined : ObjectStore → List ℕ
quarantined s = sort (keys s.quarantine)

-- The number of objects that `referenced` lacks, and of all.
unfoldable pub prune_scan : ObjectStore → List ℕ → ℕ × ℕ
unfolding scan
prune_scan s referenced =
    (length (keep (λ d. not (contains d referenced)) (scan s)), length (scan s))

-- The loop of `quarantine`: the state, and the digests that were moved.
unfoldable pub move_all : ℕ → ObjectStore → List ℕ → ObjectStore × List ℕ
move_all now s [] = (s, [])
move_all now s (d ∷ ds) =
    let moved = λ (bytes : Bytes). record s {
      objects = remove d s.objects;
      quarantine = insert d (bytes, now) s.quarantine;
    } in
    elim (lookup d s.objects) [
      | none ↦ move_all now s ds
      | some bytes ↦ let (s', rest) = move_all now (moved bytes) ds in (s', d ∷ rest)
    ]

unfoldable pub quarantine : ℕ → ObjectStore → List ℕ → ObjectStore × List ℕ
unfolding move_all
quarantine now s digests = if is_empty digests then (s, []) else move_all now s digests

-- The quarantined digests with their times, sorted by digest.
unfoldable pub insert_by_digest : ℕ × ℕ → List (ℕ × ℕ) → List (ℕ × ℕ)
insert_by_digest (d, t) [] = (d, t) ∷ []
insert_by_digest (d, t) ((e, u) ∷ es) =
    if leb d e then (d, t) ∷ (e, u) ∷ es else (e, u) ∷ insert_by_digest (d, t) es

unfoldable pub times : Map (Bytes × ℕ) → List (ℕ × ℕ)
unfolding insert_by_digest
times [] = []
times ((d, (bytes, t)) ∷ m) = insert_by_digest (d, t) (times m)

unfoldable pub gc_quarantine_meta : ObjectStore → List (ℕ × ℕ)
unfolding times
gc_quarantine_meta s = times s.quarantine

-- The quarantine copy goes first; without one, the copy in the store.
unfoldable pub delete : ObjectStore → ℕ → ObjectStore × Bool
delete s d = elim (lookup d s.quarantine) [
  | some copy ↦ (record s { quarantine = remove d s.quarantine }, true)
  | none ↦ elim (lookup d s.objects) [
    | some bytes ↦ (record s { objects = remove d s.objects }, true)
    | none ↦ (s, false)
  ]
]

unfoldable pub restore : ObjectStore → ℕ → ObjectStore × Bool
unfolding exists
restore s d = if exists s d then (s, false) else elim (lookup d s.quarantine) [
  | none ↦ (s, false)
  | some (bytes, t) ↦
      (record s { objects = insert d bytes s.objects; quarantine = remove d s.quarantine }, true)
]
