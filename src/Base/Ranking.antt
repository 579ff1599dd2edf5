-- ===== src/Base/Ranking.antt =====
-- `Iterator::enumerate`, `filter` and `max_by_key` with keys of three numbers, which compare from the left.
use kanbei.Base.Tests.{ltb, leb, if◌then◌else◌, Bool-cases}
use kanbei.Base.Lists.{All}
use Prim.Native.Nat.{ℕ, ◌+◌}
use mathlib.Core.Path.{◌≡◌, subst}
use mathlib.Core.Logic.{inl, inr}
use mathlib.Core.Bool.{Bool, true, false}
use mathlib.Core.Option.{Option, none, some}
use mathlib.Core.List.{List, [], ◌∷◌}
use native.Mathlib.Omega.{arith}

pub record Rank : Type 0 where
  pub first : ℕ
  pub second : ℕ
  pub third : ℕ

unfoldable pub rank_le : Rank → Rank → Bool
rank_le a b =
    if ltb a.first b.first
    then true
    else if ltb b.first a.first
    then false
    else if ltb a.second b.second
    then true
    else if ltb b.second a.second
    then false
    else leb a.third b.third

rank_le_refl : (a : Rank) → rank_le a a ≡ true
unfolding rank_le
rank_le_refl a = ground arith

rank_le_trans : (a b c : Rank) → rank_le a b ≡ true → rank_le b c ≡ true → rank_le a c ≡ true
unfolding rank_le
rank_le_trans a b c h k = ground (arith, h, k)

rank_le_total : (a b : Rank) → rank_le a b ≡ false → rank_le b a ≡ true
unfolding rank_le
rank_le_total a b h = ground (arith, h)

module _ {A : Type 0} where
  unfoldable pub enumerate : ℕ → List A → List (ℕ × A)
  enumerate i [] = []
  enumerate i (x ∷ xs) = (i, x) ∷ enumerate (i + 1) xs

  unfoldable pub filter : (A → Bool) → List A → List A
  filter keep [] = []
  filter keep (x ∷ xs) = let rest = filter keep xs in if keep x then x ∷ rest else rest

  module _ (rank : A → Rank) where
    -- The last of the greatest.
    unfoldable pub greater : A → A → A
    unfolding rank_le
    greater best x = if rank_le (rank best) (rank x) then x else best

    unfoldable pub greatest : A → List A → A
    unfolding greater
    greatest best [] = best
    greatest best (x ∷ xs) = greatest (greater best x) xs

    unfoldable pub max_by_key : List A → Option A
    unfolding greatest
    max_by_key [] = none
    max_by_key (x ∷ xs) = some (greatest x xs)

    greater-above :
        (best x : A)
        → (rank_le (rank best) (rank (greater best x)) ≡ true)
          × (rank_le (rank x) (rank (greater best x)) ≡ true)
    unfolding greater
    greater-above best x = elim (Bool-cases (rank_le (rank best) (rank x))) [
      | inl e ↦ rw (e, greater) (e, rank_le_refl (rank x))
      | inr e ↦ rw (e, greater) (rank_le_refl (rank best), rank_le_total (rank best) (rank x) e)
    ]

    greatest-above :
        (best : A) (xs : List A)
        → (rank_le (rank best) (rank (greatest best xs)) ≡ true)
          × All (λ x. rank_le (rank x) (rank (greatest best xs)) ≡ true) xs
    unfolding greatest
    greatest-above best [] = (rank_le_refl (rank best), tt)
    greatest-above best (x ∷ xs) =
        let (e, f) = greater-above best x in
        let (g, h) = greatest-above (greater best x) xs in
        (
          rank_le_trans (rank best) (rank (greater best x)) (rank (greatest (greater best x) xs)) e
              g,
          (
            rank_le_trans (rank x) (rank (greater best x)) (rank (greatest (greater best x) xs)) f
                g,
            h,
          ),
        )

    greatest-All :
        (P : A → Type 0) (best : A) (xs : List A) → P best → All P xs → P (greatest best xs)
    unfolding greatest
    greatest-All P best [] p h = p
    greatest-All P best (x ∷ xs) p h =
        greatest-All P (greater best x) xs (either x best (rank_le (rank best) (rank x)) h.0 p) h.1
      where
        either : (a b : A) (c : Bool) → P a → P b → P (if c then a else b)
        either a b true pa pb = pa
        either a b false pa pb = pb

    -- The maximum is above all, and is one of them.
    pub max_by_key-above :
        (xs : List A) (m : A)
        → max_by_key xs ≡ some m
        → All (λ x. rank_le (rank x) (rank m) ≡ true) xs
    unfolding max_by_key
    max_by_key-above [] m h = tt
    max_by_key-above (x ∷ xs) m h =
        subst (λ n. All (λ y. rank_le (rank y) (rank n) ≡ true) (x ∷ xs)) (some-inj h)
          (greatest-above x xs)
      where
        some-inj : {a b : A} → some a ≡ some b → a ≡ b
        some-inj e = cc

    pub max_by_key-All :
        (P : A → Type 0) (xs : List A) (m : A) → max_by_key xs ≡ some m → All P xs → P m
    unfolding max_by_key
    max_by_key-All P [] m h p = absurd (cc)
    max_by_key-All P (x ∷ xs) m h p = subst P (some-inj h) (greatest-All P x xs p.0 p.1)
      where
        some-inj : {a b : A} → some a ≡ some b → a ≡ b
        some-inj e = cc
