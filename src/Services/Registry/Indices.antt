-- ===== src/Services/Registry/Indices.antt =====
-- The numbering of the keys by which crates/kanbei-services/src/lib.rs searches for a cycle.
use kanbei.Base.{
  ℕ, zero, suc, ◌+◌, ◌≡◌, ◌≢◌, ◌≤◌, ◌<◌, refl, sym, subst, ◌∙◌, inl, inr, Option, none, some, List,
  [], ◌∷◌, ◌==◌, ==_iff, true, false, length, contains, All, Option-cases, Bool-cases, arith,
}
use kanbei.Base.Map.{lookup}
use kanbei.Services.Types.{ServiceKey, ServiceDependency, same_key, same_key_iff}
use kanbei.Services.KeyMap.{get}
use kanbei.Services.Search.{gray, black, color_of}
use kanbei.Services.Registry.Graph.{Dependencies, keys, index_of, key_at, indices, range_from}

pub contains-range_from : (j i n : ℕ) → i ≤ j → j < i + n → contains j (range_from i n) ≡ true
unfolding range_from
contains-range_from j i zero h k = absurd (omega arith)
contains-range_from j i (suc n) h k = elim (Bool-cases (i == j)) [
  | inl e ↦ rw e refl
  | inr e ↦ rw e (contains-range_from j (i + 1) n (ground (arith, e)) (omega arith))
]

pub All-contains : (P : ℕ → Type 0) (a : ℕ) (xs : List ℕ) → All P xs → contains a xs ≡ true → P a
All-contains P a [] h k = absurd (cc)
All-contains P a (x ∷ xs) h k = elim (Bool-cases (x == a)) [
  | inl e ↦ subst P ((==_iff x a).0 e) h.0
  | inr e ↦ All-contains P a xs h.1 (ground (arith, k, e))
]

pub All-range_from :
    (n i m : ℕ) → i + n ≤ m → All (λ s. contains s (range_from 0 m) ≡ true) (range_from i n)
unfolding range_from
All-range_from zero i m h = tt
All-range_from (suc n) i m h = (
  contains-range_from i 0 m (omega arith) (omega arith),
  All-range_from n (i + 1) m (omega arith),
)

some-inj {ℓ} : {A : Type ℓ} {a b : A} → some a ≡ some b → a ≡ b
some-inj h = cc

pub length-range_from : (i n : ℕ) → length (range_from i n) ≡ n
unfolding range_from
length-range_from i zero = refl
length-range_from i (suc n) = omega (arith, length-range_from (i + 1) n)

-- The rank of a key is that of its number.
unfoldable pub rank_at : (ℕ → ℕ) → Option ℕ → ℕ
rank_at rank none = 0
rank_at rank (some i) = rank i

pub index_of-lt :
    (k : ServiceKey) (ks : List ServiceKey) (i : ℕ) → index_of k ks ≡ some i → i < length ks
unfolding index_of
index_of-lt k [] i h = absurd (cc)
index_of-lt k (j ∷ ks) i h = elim (Option-cases (index_of k ks)) [
  | inl e ↦ ground (arith, h, e)
  | inr (n, e) ↦ ground (arith, h, e, index_of-lt k ks n e)
]

pub index_of-key_at :
    (k : ServiceKey) (ks : List ServiceKey) (i : ℕ) → index_of k ks ≡ some i → key_at ks i ≡ some k
unfolding index_of key_at
index_of-key_at k [] i h = absurd (cc)
index_of-key_at k (j ∷ ks) zero h = elim (Option-cases (index_of k ks)) [
  | inl e ↦ ground (arith, h, e, same_key_iff j k)
  | inr (n, e) ↦ ground (arith, h, e, same_key_iff j k)
]
index_of-key_at k (j ∷ ks) (suc i) h = elim (Option-cases (index_of k ks)) [
  | inl e ↦ absurd (ground (arith, h, e))
  | inr (n, e) ↦ index_of-key_at k ks i (ground (arith, h, e))
]

pub index_of-none :
    (k : ServiceKey) (ks : List ServiceKey)
    → index_of k ks ≡ none
    → All (λ j. same_key j k ≡ false) ks
unfolding index_of
index_of-none k [] h = tt
index_of-none k (j ∷ ks) h = elim (Option-cases (index_of k ks)) [
  | inl e ↦ (ground (arith, h, e), index_of-none k ks e)
  | inr (n, e) ↦ absurd (ground (arith, h, e))
]

pub get-none :
    (k : ServiceKey) (m : Dependencies) → All (λ j. same_key j k ≡ false) (keys m) → get k m ≡ none
unfolding get
get-none k [] h = refl
get-none k ((j, ds) ∷ m) h = ground (arith, h.0, get-none k m h.1)

pub All-indices :
    (P : ℕ → Type 0) (ks : List ServiceKey) (ds : List ServiceDependency)
    → ((d : ServiceDependency) (i : ℕ) → index_of d.key ks ≡ some i → P i)
    → All P (indices ks ds)
unfolding indices
All-indices P ks [] f = tt
All-indices P ks (d ∷ ds) f = elim (Option-cases (index_of d.key ks)) [
  | inl e ↦ rw (e, indices) (All-indices P ks ds f)
  | inr (i, e) ↦ rw (e, indices) (f d i e, All-indices P ks ds f)
]

pub All-of-indices :
    (P : ℕ → Type 0) (ks : List ServiceKey) (ds : List ServiceDependency)
    → All P (indices ks ds)
    → All (λ d. (i : ℕ) → index_of d.key ks ≡ some i → P i) ds
unfolding indices
All-of-indices P ks [] h = tt
All-of-indices P ks (d ∷ ds) h = elim (Option-cases (index_of d.key ks)) [
  | inl e ↦ (λ i f. absurd (ground (arith, e, f)), All-of-indices P ks ds (rw (e, indices) at h))
  | inr (j, e) ↦
      let k : P j × All P (indices ks ds) = rw (e, indices) at h in
      (λ i f. subst P (some-inj (sym e ∙ f)) k.0, All-of-indices P ks ds k.1)
]

pub start_black : (u : ℕ) → color_of u [] ≢ black
unfolding color_of lookup
start_black u h = cc

pub start_gray : (u : ℕ) → color_of u [] ≢ gray
unfolding color_of lookup
start_gray u h = cc
