-- ===== src/Gc.antt =====
-- The collector of crates/kanbei-gc/src/lib.rs: `GcRun::execute`, its three phases. What the two runs of
-- the reference walk return, the writer pins when each phase asks for them, and the clock are arguments.
pub mod Fate
pub mod Safety
mod Examples
use kanbei.Base.{
  ℕ, ◌+◌, ◌-◌, ◌*◌, ◌/◌, ◌^◌, ◌≡◌, ◌&&◌, Bool, true, false, not, Option, none, some, List, [], ◌∷◌,
  if◌then◌else◌, ltb, length, keep, contains,
}
use kanbei.Objects.{ObjectStore, exists, scan, quarantine, gc_quarantine_meta, delete, restore}

-- Durations and times are in nanoseconds.
pub record GcConfig : Type 0 where
  pub grace : ℕ
  pub sweep : Bool

abbrev pub default_config : GcConfig
default_config = record { grace = 7 * 24 * 60 * 60 * 10 ^ 9; sweep = false }

pub record GcReport : Type 0 where
  pub run_id : ℕ
  pub scanned : ℕ
  pub referenced : ℕ
  pub quarantined : ℕ
  pub swept : ℕ
  pub restored_or_cleaned : ℕ
  pub grace_secs : ℕ

pub data GcError : Type 0 where
  io log : GcError

pub data GcResult {ℓ} (A : Type ℓ) : Type ℓ where
  ok : A → GcResult A
  err : GcError → GcResult A

-- `Collector::collect`: the set of referenced digests, with each digest once.
abbrev pub Collector : Type 0
Collector = ObjectStore → GcResult (List ℕ)

-- `age`: a time in the future reads as age zero.
abbrev pub age : ℕ → ℕ → ℕ
age now mtime = now - mtime

-- The state of the sweep loop: the store, and the counts of swept and of restored or cleaned files.
pub record Sweep : Type 0 where
  pub store : ObjectStore
  pub swept : ℕ
  pub restored_or_cleaned : ℕ

unfoldable pub sweep_one : List ℕ → (ℕ → Bool) → ℕ → ℕ → ℕ × ℕ → Sweep → Sweep
sweep_one references pins grace now (d, mtime) w =
    if ltb (age now mtime) grace
    then w
    else if pins d
    then w
    else if contains d references
    then record w {
      store = if exists w.store d then (delete w.store d).0 else (restore w.store d).0;
      restored_or_cleaned = w.restored_or_cleaned + 1;
    }
    else record w { store = (delete w.store d).0; swept = w.swept + 1 }

unfoldable pub sweep_all : List ℕ → (ℕ → Bool) → ℕ → ℕ → List (ℕ × ℕ) → Sweep → Sweep
unfolding sweep_one
sweep_all references pins grace now [] w = w
sweep_all references pins grace now (m ∷ ms) w =
    sweep_all references pins grace now ms (sweep_one references pins grace now m w)

-- Phase 2: what is neither referenced nor pinned is moved into quarantine.
unfoldable pub candidates : List ℕ → (ℕ → Bool) → ObjectStore → List ℕ
candidates references pins s = keep (λ d. not (contains d references) && not (pins d)) (scan s)

-- What `execute` is given at its two reads of the references, of the pins and of the clock.
pub record Inputs : Type 0 where
  pub run_id : ℕ
  pub first : Collector
  pub second : Collector
  pub pins_first : ℕ → Bool
  pub pins_second : ℕ → Bool
  pub quarantined_at : ℕ
  pub swept_at : ℕ

abbrev pub report : Inputs → GcConfig → ℕ → ℕ → ℕ → ℕ → ℕ → GcReport
report i c scanned referenced moved swept restored = record {
  run_id = i.run_id;
  scanned = scanned;
  referenced = referenced;
  quarantined = moved;
  swept = swept;
  restored_or_cleaned = restored;
  grace_secs = c.grace / 10 ^ 9;
}

abbrev pub after_phase2 : Inputs → List ℕ → ObjectStore → ObjectStore
after_phase2 i references s =
    (quarantine i.quarantined_at s (candidates references i.pins_first s)).0

abbrev pub after_phase3 : Inputs → GcConfig → List ℕ → ObjectStore → Sweep
after_phase3 i c references s =
    sweep_all references i.pins_second c.grace i.swept_at (gc_quarantine_meta s)
      (record { store = s; swept = 0; restored_or_cleaned = 0 })

unfoldable pub execute : ObjectStore → Inputs → GcConfig → ObjectStore × GcResult GcReport
unfolding candidates
execute s i c = elim (i.first s) [
  | err e ↦ (s, err e)
  | ok references ↦
      let moved = after_phase2 i references s in
      let count = length (quarantine i.quarantined_at s (candidates references i.pins_first s)).1 in
      if c.sweep
      then (elim (i.second moved) [
        | err e ↦ (moved, err e)
        | ok fresh ↦
            let w = after_phase3 i c fresh moved in
            (
              w.store,
              ok (
                  report i c (length (scan s)) (length references) count w.swept
                    w.restored_or_cleaned),
            )
      ])
      else (moved, ok (report i c (length (scan s)) (length references) count 0 0))
]
