-- ===== src/Gc/Examples.antt =====
-- The collector of crates/kanbei-gc/src/lib.rs on a concrete store, at inputs that meet the hypotheses
-- of its theorems.
use kanbei.Base.{keep, ◌≡◌, refl, inr, true, false, some, [], ◌∷◌}
use kanbei.Base.Map.{lookup, insert, remove}
use kanbei.Objects.{ObjectStore, quarantine, scan, sort, gc_quarantine_meta, delete, restore}
use kanbei.Gc.{GcConfig, Inputs, candidates, execute, sweep_all, ok}
use kanbei.Gc.Fate.{copies}
use kanbei.Gc.Safety.{run_fate, execute-fate, execute-keeps, execute-deletes, Lost}

-- Object 1 is referenced, object 2 is not, and object 3 has been in quarantine for long.
abbrev store : ObjectStore
store = record {
  objects = (1, 10 ∷ []) ∷ (2, 20 ∷ []) ∷ [];
  quarantine = (3, (30 ∷ [], 100)) ∷ [];
  queue = [];
  installs = 3;
  dirsyncs = 3;
}

abbrev inputs : Inputs
inputs = record {
  run_id = 77;
  first = λ s. ok (1 ∷ []);
  second = λ s. ok (1 ∷ []);
  pins_first = λ d. false;
  pins_second = λ d. false;
  quarantined_at = 1000;
  swept_at = 1001;
}

abbrev config : GcConfig
config = record { grace = 50; sweep = true }

execute-fate_example :
    copies (execute store inputs config).0 2
    ≡ run_fate inputs config (1 ∷ []) (1 ∷ []) 2 (copies store 2)
execute-fate_example = execute-fate store inputs config (1 ∷ []) (1 ∷ []) 2 (refl, tt) refl refl

execute-keeps_example : lookup 1 (execute store inputs config).0.objects ≡ some (10 ∷ [])
unfolding lookup
execute-keeps_example =
    execute-keeps store inputs config (1 ∷ []) 1 (10 ∷ []) (refl, tt) refl refl refl

execute-deletes_example : (true ≡ true) × Lost false false false 1000 50 1001 (copies store 3)
unfolding copies lookup execute candidates quarantine scan sweep_all gc_quarantine_meta delete
    restore remove insert keep sort
execute-deletes_example =
    execute-deletes store inputs config (1 ∷ []) (1 ∷ []) 3 (refl, tt) refl refl (inr (λ h. cc))
      refl refl
