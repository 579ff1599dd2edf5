-- ===== src/Base/Table.antt =====
-- `HashMap` with keys that a Boolean test tells apart. A key stands in the list once.
use kanbei.Base.Tests.{if◌then◌else◌}
use mathlib.Core.Path.{◌≡◌}
use mathlib.Core.Logic.{◌↔◌}
use mathlib.Core.Bool.{Bool, true}
use mathlib.Core.Option.{Option, none, some}
use mathlib.Core.List.{List, [], ◌∷◌}
use native.Mathlib.Omega.{arith}

abbrev pub Table {κ ℓ} : Type κ → Type ℓ → Type (κ ⊔ ℓ)
Table K V = List (K × V)

module _ {K : Type 0} {V : Type 0} (same : K → K → Bool) where
  unfoldable pub find : K → Table K V → Option V
  find k [] = none
  find k ((j, v) ∷ m) = if same j k then some v else find k m

  unfoldable pub drop : K → Table K V → Table K V
  drop k [] = []
  drop k ((j, v) ∷ m) = let rest = drop k m in if same j k then rest else (j, v) ∷ rest

  unfoldable pub store : K → V → Table K V → Table K V
  unfolding drop
  store k v m = (k, v) ∷ drop k m

  module _ (same_iff : (j k : K) → (same j k ≡ true) ↔ (j ≡ k)) where
    pub find-drop :
        (k j : K) (m : Table K V) → find j (drop k m) ≡ (if same k j then none else find j m)
    unfolding find drop
    find-drop k j [] = ground arith
    find-drop k j ((i, v) ∷ m) =
        ground (arith, same_iff i k, same_iff i j, same_iff k j, find-drop k j m)

    pub find-store :
        (k j : K) (v : V) (m : Table K V)
        → find j (store k v m) ≡ (if same k j then some v else find j m)
    unfolding find store
    find-store k j v m = ground (arith, find-drop k j m)

    -- A key that is free takes nothing over.
    pub store-free :
        (k j : K) (v w : V) (m n : Table K V)
        → find k n ≡ none
        → find j n ≡ some w
        → find j m ≡ some w
        → find j (store k v m) ≡ some w
    store-free k j v w m n e f g = ground (arith, e, f, g, same_iff k j, find-store k j v m)
