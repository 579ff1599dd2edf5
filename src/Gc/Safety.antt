-- ===== src/Gc/Safety.antt =====
-- What a run of the collector of crates/kanbei-gc/src/lib.rs may do to an object, and what it may not.
use kanbei.Base.{
  ℕ, ◌≤◌, ◌≡◌, ◌≢◌, refl, ap, ◌⊎◌, inl, inr, Bool, true, false, ◌||◌, Option, none, some, List,
  arith, if◌then◌else◌, contains, Bool-cases,
}
use kanbei.Base.Map.{keys, IsDistinct, lookup}
use kanbei.Objects.{Bytes, ObjectStore}
use kanbei.Gc.{GcConfig, GcResult, GcError, Inputs, execute, after_phase2, ok, err, age}
use kanbei.Gc.Fate.{
  Copies, copies, park, sweep_fate, fate, phase2-copies, phase3-copies, phase2-IsDistinct,
}

-- Phase 2 and, where it is configured, phase 3 on the copies of one object.
abbrev pub run_fate : Inputs → GcConfig → List ℕ → List ℕ → ℕ → Copies → Copies
run_fate i c references fresh d x =
    let moved = park (contains d references || i.pins_first d) i.quarantined_at x in
    if c.sweep then fate fresh i.pins_second c.grace i.swept_at d moved else moved

-- A run whose two reference walks succeed does to each object what its own copies, references, pins
-- and times say, whatever else is in the store.
pub execute-fate :
    (s : ObjectStore) (i : Inputs) (c : GcConfig) (references fresh : List ℕ) (d : ℕ)
    → IsDistinct (keys s.quarantine)
    → i.first s ≡ ok references
    → i.second (after_phase2 i references s) ≡ ok fresh
    → copies (execute s i c).0 d ≡ run_fate i c references fresh d (copies s d)
unfolding execute
execute-fate s i c references fresh d h e f = ground (
  arith,
  phase2-copies i references s d,
  phase3-copies i c fresh (after_phase2 i references s) d (phase2-IsDistinct i references s h),
)

GcResult-cases {ℓ} :
    {A : Type ℓ} (r : GcResult A) → ((e : GcError) × (r ≡ err e)) ⊎ ((a : A) × (r ≡ ok a))
GcResult-cases (err e) = inl (e, refl)
GcResult-cases (ok a) = inr (a, refl)

keeps_fate :
    (held referenced pinned : Bool) (at grace now : ℕ) (x : Copies) (b : Bytes)
    → held ≡ true
    → x.live ≡ some b
    → ((park held at x).live ≡ some b)
      × ((sweep_fate referenced pinned grace now (park held at x)).live ≡ some b)
unfolding park sweep_fate
keeps_fate held referenced pinned at grace now x b h e = ground arith

-- An object of the store that the first walk references, or that a writer has pinned then, stays in the
-- store with its bytes: whatever is in quarantine, whatever the second walk says, and also where a walk
-- fails.
pub execute-keeps :
    (s : ObjectStore) (i : Inputs) (c : GcConfig) (references : List ℕ) (d : ℕ) (b : Bytes)
    → IsDistinct (keys s.quarantine)
    → i.first s ≡ ok references
    → (contains d references || i.pins_first d) ≡ true
    → lookup d s.objects ≡ some b
    → lookup d (execute s i c).0.objects ≡ some b
unfolding execute copies
execute-keeps s i c references d b h e held live =
    let moved = after_phase2 i references s in
    let kept = λ (fresh : List ℕ).
      keeps_fate (contains d references || i.pins_first d) (contains d fresh) (i.pins_second d)
        i.quarantined_at c.grace i.swept_at (copies s d) b held live in
    elim (GcResult-cases (i.second moved)) [
      | inl (x, f) ↦ ground (arith, phase2-copies i references s d, kept references)
      | inr (fresh, f) ↦ ground (
        arith,
        phase2-copies i references s d,
        phase3-copies i c fresh moved d (phase2-IsDistinct i references s h),
        kept fresh,
      )
    ]

-- Why an object with a copy has none after the two phases.
abbrev pub Lost : Bool → Bool → Bool → ℕ → ℕ → ℕ → Copies → Type 0
Lost held referenced pinned at grace now x =
    (referenced ≡ false)
    × (pinned ≡ false)
    × (((held ≡ false) × (x.live ≢ none) × (grace ≤ age now at))
        ⊎ ((x.live ≡ none)
            × ((t : ℕ) × (b : Bytes) × (x.parked ≡ some (b, t)) × (grace ≤ age now t))))

sweep_fate-Lost :
    (held referenced pinned : Bool) (at grace now : ℕ) (live : Option Bytes)
    (parked : Option (Bytes × ℕ))
    → let x : Copies = record { live = live; parked = parked } in
      (live ≢ none) ⊎ (parked ≢ none)
      → (sweep_fate referenced pinned grace now (park held at x)).live ≡ none
      → (sweep_fate referenced pinned grace now (park held at x)).parked ≡ none
      → Lost held referenced pinned at grace now x
unfolding park sweep_fate
sweep_fate-Lost true r p at g now (some b) none h e f = ground arith
sweep_fate-Lost true r p at g now (some b) (some (k, t)) h e f = ground arith
sweep_fate-Lost false r p at g now (some b) q h e f =
    (ground arith, ground arith, inl (refl, (λ k. cc), ground arith))
sweep_fate-Lost held r p at g now none none h e f = ground arith
sweep_fate-Lost true r p at g now none (some (k, t)) h e f =
    (ground arith, ground arith, inr (refl, (t, k, refl, ground arith)))
sweep_fate-Lost false r p at g now none (some (k, t)) h e f =
    (ground arith, ground arith, inr (refl, (t, k, refl, ground arith)))

park-keeps :
    (held : Bool) (at : ℕ) (live : Option Bytes) (parked : Option (Bytes × ℕ))
    → let x : Copies = record { live = live; parked = parked } in
      (live ≢ none) ⊎ (parked ≢ none)
      → ((park held at x).live ≢ none) ⊎ ((park held at x).parked ≢ none)
unfolding park
park-keeps true at live parked h = h
park-keeps false at none parked h = h
park-keeps false at (some b) parked h = inr (λ k. cc)

-- An object is deleted, every copy of it, only by a configured sweep, only if the second walk does not
-- reference it and no writer has pinned it at the sweep, and only after the grace period: counted from
-- this run's quarantine if it was in the store (and then the first walk and the first pins did not hold
-- it either), and from its time in quarantine otherwise.
pub execute-deletes :
    (s : ObjectStore) (i : Inputs) (c : GcConfig) (references fresh : List ℕ) (d : ℕ)
    → IsDistinct (keys s.quarantine)
    → i.first s ≡ ok references
    → i.second (after_phase2 i references s) ≡ ok fresh
    → ((copies s d).live ≢ none) ⊎ ((copies s d).parked ≢ none)
    → (copies (execute s i c).0 d).live ≡ none
    → (copies (execute s i c).0 d).parked ≡ none
    → (c.sweep ≡ true)
      × Lost
          (contains d references || i.pins_first d)
          (contains d fresh)
          (i.pins_second d)
          i.quarantined_at
          c.grace
          i.swept_at
          (copies s d)
execute-deletes s i c references fresh d h e f had gone gone' =
    let same = execute-fate s i c references fresh d h e f in
    let x : Copies = copies s d in
    let held = contains d references || i.pins_first d in
    let l = ap (λ (y : Copies). y.live) same in
    let p = ap (λ (y : Copies). y.parked) same in
    let kept = park-keeps held i.quarantined_at x.live x.parked had in
    elim (Bool-cases c.sweep) [
      | inl on ↦ (
        on,
        sweep_fate-Lost held (contains d fresh) (i.pins_second d) i.quarantined_at c.grace
            i.swept_at x.live x.parked had (ground (arith, l)) (ground (arith, p)),
      )
      | inr off ↦ absurd (ground (arith, l, p, kept))
    ]
