-- ===== src/Base/Map.antt =====
-- `HashMap` with numbers as keys: identities and digests are read as numbers. A key stands in the
-- list once.
use kanbei.Base.Lists.{contains}
use kanbei.Base.Tests.{is_some, ==_refl, ◌==◌, if◌then◌else◌}
use Prim.Native.Nat.{ℕ}
use mathlib.Core.Path.{◌≡◌, refl, ◌∙◌}
use mathlib.Core.Bool.{false}
use mathlib.Core.Option.{Option, none, some}
use mathlib.Core.List.{List, [], ◌∷◌}
use native.Mathlib.Omega.{arith}

abbrev pub Map {ℓ} : Type ℓ → Type ℓ
Map V = List (ℕ × V)

module _ {ℓ} {V : Type ℓ} where
  -- `HashMap::get`.
  unfoldable pub lookup : ℕ → Map V → Option V
  lookup k [] = none
  lookup k ((j, v) ∷ m) = if j == k then some v else lookup k m

  -- `HashMap::remove`, without its result.
  unfoldable pub remove : ℕ → Map V → Map V
  remove k [] = []
  remove k ((j, v) ∷ m) = let rest = remove k m in if j == k then rest else (j, v) ∷ rest

  -- `HashMap::insert`.
  unfoldable pub insert : ℕ → V → Map V → Map V
  unfolding remove
  insert k v m = (k, v) ∷ remove k m

  -- `HashMap::values`.
  abbrev pub values : Map V → List V
  values [] = []
  values ((k, v) ∷ m) = v ∷ values m

  -- `HashMap::keys`.
  abbrev pub keys : Map V → List ℕ
  keys [] = []
  keys ((k, v) ∷ m) = k ∷ keys m

  pub lookup-remove :
      (k j : ℕ) (m : Map V) → lookup j (remove k m) ≡ (if k == j then none else lookup j m)
  unfolding lookup remove
  lookup-remove k j [] = ground arith
  lookup-remove k j ((i, v) ∷ m) = ground (arith, lookup-remove k j m)

  pub lookup-insert :
      (k j : ℕ) (v : V) (m : Map V)
      → lookup j (insert k v m) ≡ (if k == j then some v else lookup j m)
  unfolding lookup insert
  lookup-insert k j v m = ground (arith, lookup-remove k j m)

  pub lookup-nil : (k : ℕ) → lookup k [] ≡ none
  unfolding lookup
  lookup-nil k = refl

pub ruleset map_laws = (lookup-nil, lookup-remove, lookup-insert)

-- No key stands twice.
abbrev pub IsDistinct : List ℕ → Type 0
IsDistinct [] = Unit
IsDistinct (k ∷ ks) = (contains k ks ≡ false) × IsDistinct ks

module _ {ℓ} {V : Type ℓ} where
  pub contains-keys : (a : ℕ) (m : Map V) → contains a (keys m) ≡ is_some (lookup a m)
  unfolding lookup
  contains-keys a [] = refl
  contains-keys a ((k, v) ∷ m) = ground (arith, contains-keys a m)

  contains-remove :
      (a k : ℕ) (m : Map V)
      → contains a (keys (remove k m)) ≡ (if k == a then false else contains a (keys m))
  unfolding remove
  contains-remove a k [] = ground arith
  contains-remove a k ((j, v) ∷ m) = ground (arith, contains-remove a k m)

  pub IsDistinct-remove : (k : ℕ) (m : Map V) → IsDistinct (keys m) → IsDistinct (keys (remove k m))
  unfolding remove
  IsDistinct-remove k [] h = tt
  IsDistinct-remove k ((j, v) ∷ m) h =
      ground (arith, contains-remove j k m, IsDistinct-remove k m h.1)

  pub IsDistinct-insert :
      (k : ℕ) (v : V) (m : Map V) → IsDistinct (keys m) → IsDistinct (keys (insert k v m))
  unfolding insert
  IsDistinct-insert k v m h =
      (contains-remove k k m ∙ ground (arith, ==_refl k), IsDistinct-remove k m h)
