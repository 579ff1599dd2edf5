-- ===== src/Gc/Fate.antt =====
-- What becomes of one object in a run of the collector of crates/kanbei-gc/src/lib.rs, as a function of
-- its two copies alone; and `GcRun::execute` as that function, object by object.
use kanbei.Base.{
  ℕ, ◌≡◌, refl, ◌∙◌, ap, ◌==◌, ==_iff, inl, inr, Bool, true, false, not, ◌&&◌, ◌||◌, Option, none,
  some, List, [], ◌∷◌, arith, if◌then◌else◌, ltb, is_some, contains, contains-keep, All,
  Option-cases,
}
use kanbei.Base.Map.{
  lookup, insert, remove, keys, lookup-insert, lookup-remove, contains-keys, IsDistinct,
  IsDistinct-insert,
}
use kanbei.Objects.{
  Bytes, ObjectStore, exists, scan, sort, insert_sorted, quarantine, move_all, delete, restore,
  gc_quarantine_meta, times,
}
use kanbei.Objects.Laws.{IsListed, times-IsListed, times-IsDistinct, contains-times}
use kanbei.Gc.{
  GcConfig, Inputs, Sweep, sweep_one, sweep_all, candidates, after_phase2, after_phase3, age,
}

-- The copies of an object in the store and in quarantine.
pub record Copies : Type 0 where
  pub live : Option Bytes
  pub parked : Option (Bytes × ℕ)

unfoldable pub copies : ObjectStore → ℕ → Copies
copies s d = record { live = lookup d s.objects; parked = lookup d s.quarantine }

-- Phase 2 on one object: `held` says that it is referenced or pinned.
unfoldable pub park : Bool → ℕ → Copies → Copies
park true now c = c
park false now c = elim c.live [
  | none ↦ c
  | some bytes ↦ record { live = none; parked = some (bytes, now) }
]

-- Phase 3 on one object.
unfoldable pub sweep_fate : Bool → Bool → ℕ → ℕ → Copies → Copies
sweep_fate referenced pinned grace now c = elim c.parked [
  | none ↦ c
  | some (bytes, t) ↦ if ltb (age now t) grace || pinned then c else record {
    live = if referenced && not (is_some c.live) then some bytes else c.live;
    parked = none;
  }
]

contains-insert_sorted :
    (a d : ℕ) (ds : List ℕ) → contains a (insert_sorted d ds) ≡ ((d == a) || contains a ds)
unfolding insert_sorted
contains-insert_sorted a d [] = refl
contains-insert_sorted a d (e ∷ es) = ground (arith, contains-insert_sorted a d es)

contains-sort : (a : ℕ) (ds : List ℕ) → contains a (sort ds) ≡ contains a ds
unfolding sort
contains-sort a [] = refl
contains-sort a (d ∷ ds) = contains-insert_sorted a d (sort ds) ∙ ground (arith, contains-sort a ds)

abbrev parked_store : ℕ → ObjectStore → ℕ → Bytes → ObjectStore
parked_store now s d bytes = record s {
  objects = remove d s.objects;
  quarantine = insert d (bytes, now) s.quarantine;
}

move-copies :
    (now : ℕ) (s : ObjectStore) (ds : List ℕ) (d : ℕ)
    → copies (move_all now s ds).0 d ≡ park (not (contains d ds)) now (copies s d)
unfolding move_all copies park
move-copies now s [] d = refl
move-copies now s (x ∷ ds) d = elim (Option-cases (lookup x s.objects)) [
  | inl e ↦ rw (e, move_all) (ground (arith, move-copies now s ds d))
  | inr (b, e) ↦
      rw (e, move_all)
        (ground (
          arith,
          move-copies now (parked_store now s x b) ds d,
          lookup-remove x d s.objects,
          lookup-insert x d (b, now) s.quarantine,
        ))
]

quarantine-copies :
    (now : ℕ) (s : ObjectStore) (ds : List ℕ) (d : ℕ)
    → copies (quarantine now s ds).0 d ≡ park (not (contains d ds)) now (copies s d)
unfolding quarantine park
quarantine-copies now s [] d = refl
quarantine-copies now s (x ∷ ds) d = move-copies now s (x ∷ ds) d

-- Phase 2 parks an object exactly if it is neither referenced nor pinned.
pub phase2-copies :
    (i : Inputs) (references : List ℕ) (s : ObjectStore) (d : ℕ)
    → copies (after_phase2 i references s) d
      ≡ park (contains d references || i.pins_first d) i.quarantined_at (copies s d)
unfolding candidates scan
phase2-copies i references s d =
    quarantine-copies i.quarantined_at s _ d
    ∙ unfold park copies in
      ground (
        arith,
        contains-keep d (λ x. not (contains x references) && not (i.pins_first x))
            (sort (keys s.objects)),
        contains-sort d (keys s.objects),
        contains-keys d s.objects,
      )

-- One step of the sweep touches its own object only.
sweep_one-copies :
    (references : List ℕ) (pins : ℕ → Bool) (grace now d t e : ℕ) (bytes : Bytes) (w : Sweep)
    → lookup d w.store.quarantine ≡ some (bytes, t)
    → copies (sweep_one references pins grace now (d, t) w).store e ≡ (
        if d == e
        then sweep_fate (contains e references) (pins e) grace now (copies w.store e)
        else copies w.store e)
unfolding sweep_one sweep_fate copies delete restore exists
sweep_one-copies references pins grace now d t e bytes w h =
    grind (arith, lookup-remove, lookup-insert)

abbrev pub fate : List ℕ → (ℕ → Bool) → ℕ → ℕ → ℕ → Copies → Copies
fate references pins grace now e c = sweep_fate (contains e references) (pins e) grace now c

-- The other listed files stay as they are listed.
sweep_one-IsListed :
    (references : List ℕ) (pins : ℕ → Bool) (grace now d t : ℕ) (bytes : Bytes) (w : Sweep)
    (ms : List (ℕ × ℕ))
    → lookup d w.store.quarantine ≡ some (bytes, t)
    → contains d (keys ms) ≡ false
    → All (IsListed w.store.quarantine) ms
    → All (IsListed (sweep_one references pins grace now (d, t) w).store.quarantine) ms
unfolding copies
sweep_one-IsListed references pins grace now d t bytes w [] h k l = tt
sweep_one-IsListed references pins grace now d t bytes w ((e, u) ∷ ms) h k l = (
  (
    l.0.0,
    ground (
      arith,
      l.0.1,
      ap (λ (c : Copies). c.parked) (sweep_one-copies references pins grace now d t e bytes w h),
    ),
  ),
  sweep_one-IsListed references pins grace now d t bytes w ms h (ground arith) l.1,
)

sweep_all-copies :
    (references : List ℕ) (pins : ℕ → Bool) (grace now e : ℕ) (ms : List (ℕ × ℕ)) (w : Sweep)
    → IsDistinct (keys ms)
    → All (IsListed w.store.quarantine) ms
    → copies (sweep_all references pins grace now ms w).store e ≡ (
        if contains e (keys ms)
        then fate references pins grace now e (copies w.store e)
        else copies w.store e)
unfolding sweep_all
sweep_all-copies references pins grace now e [] w k l = refl
sweep_all-copies references pins grace now e ((d, t) ∷ ms) w k l =
    let w' = sweep_one references pins grace now (d, t) w in
    sweep_all-copies references pins grace now e ms w' k.1
      (sweep_one-IsListed references pins grace now d t l.0.0 w ms l.0.1 k.0 l.1)
    ∙ ground
        (arith, k.0, ==_iff d e, sweep_one-copies references pins grace now d t e l.0.0 w l.0.1)

-- Phase 3 sweeps what is in quarantine, each object by its own fate.
pub phase3-copies :
    (i : Inputs) (c : GcConfig) (references : List ℕ) (s : ObjectStore) (d : ℕ)
    → IsDistinct (keys s.quarantine)
    → copies (after_phase3 i c references s).store d
      ≡ fate references i.pins_second c.grace i.swept_at d (copies s d)
unfolding gc_quarantine_meta
phase3-copies i c references s d h =
    sweep_all-copies references i.pins_second c.grace i.swept_at d (times s.quarantine) _
      (times-IsDistinct s.quarantine h) (times-IsListed s.quarantine h)
    ∙ unfold copies sweep_fate in
      ground (arith, contains-times d s.quarantine, contains-keys d s.quarantine)

move-IsDistinct :
    (now : ℕ) (s : ObjectStore) (ds : List ℕ)
    → IsDistinct (keys s.quarantine)
    → IsDistinct (keys (move_all now s ds).0.quarantine)
unfolding move_all
move-IsDistinct now s [] h = h
move-IsDistinct now s (x ∷ ds) h = elim (Option-cases (lookup x s.objects)) [
  | inl e ↦ rw (e, move_all) (move-IsDistinct now s ds h)
  | inr (b, e) ↦
      rw (e, move_all)
        (move-IsDistinct now (parked_store now s x b) ds
          (IsDistinct-insert x (b, now) s.quarantine h))
]

pub phase2-IsDistinct :
    (i : Inputs) (references : List ℕ) (s : ObjectStore)
    → IsDistinct (keys s.quarantine)
    → IsDistinct (keys (after_phase2 i references s).quarantine)
unfolding quarantine
phase2-IsDistinct i references s h =
    ground (arith, move-IsDistinct i.quarantined_at s (candidates references i.pins_first s) h)
