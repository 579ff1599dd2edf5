-- ===== src/Scopes/Removal/Emptying.antt =====
-- The second loop of `remove_scope` in crates/kanbei-scopes/src/registry.rs: it removes a closed set of services.
use kanbei.Base.{
  ℕ, suc, ◌≡◌, ◌≤◌, refl, sym, ap, subst, inl, inr, Bool, true, false, ◌||◌, none, some, List, [],
  ◌∷◌, ◌++◌, length, leb, All, All-mono, Bool-cases, Option-cases, arith,
}
use kanbei.Base.Sorting.{All-sort_by, All-of-sort_by}
use kanbei.Services.Types.{ServiceKey, ServiceDependency, same_key, same_key_iff, same_key_refl}
use kanbei.Services.KeyMap.{delete}
use kanbei.Services.Registry.Graph.{Dependencies}
use kanbei.Services.Registry.Ops.{ServiceRegistry, edges_to, all_edges_to, dependents_of}
use kanbei.Scopes.Removal.{has_key, take_first}
use kanbei.Scopes.Removal.Edges.{All-++}

-- No key stands twice in a list of keys.
abbrev pub IsOnce : List ServiceKey → Type 0
IsOnce [] = Unit
IsOnce (k ∷ ks) = (has_key k ks ≡ false) × IsOnce ks

pub All-has_key :
    (P : ServiceKey → Type 0) (j : ServiceKey) (ks : List ServiceKey)
    → has_key j ks ≡ true
    → All P ks
    → P j
unfolding has_key
All-has_key P j [] h a = absurd (cc)
All-has_key P j (k ∷ ks) h a = elim (Bool-cases (same_key k j)) [
  | inl e ↦ subst P ((same_key_iff k j).0 e) a.0
  | inr e ↦ All-has_key P j ks (ground (arith, e, h)) a.1
]

-- A key of the highest rank.
pub highest :
    (rank : ServiceKey → ℕ) (Q : ServiceKey → Type 0) (k : ServiceKey) (ks : List ServiceKey)
    → All Q (k ∷ ks)
    → (m : ServiceKey) × Q m × All (λ j. rank j ≤ rank m) (k ∷ ks)
highest rank Q k [] h = (k, h.0, (omega arith, tt))
highest rank Q k (j ∷ ks) h =
    let (m, q, above) = highest rank Q j ks h.1 in
    elim (Bool-cases (leb (rank k) (rank m))) [
      | inl e ↦ (m, q, (ground (arith, e), above))
      | inr e ↦ (
        k,
        h.0,
        (
          omega arith,
          All-mono (λ i. rank i ≤ rank m) (λ i. rank i ≤ rank k) (λ i f. ground (arith, e, f))
              (j ∷ ks) above,
        ),
      )
    ]

module _ (ready : ServiceKey → Bool) where
  pub take_first-none :
      (ks : List ServiceKey) → take_first ready ks ≡ none → All (λ k. ready k ≡ false) ks
  unfolding take_first
  take_first-none [] h = tt
  take_first-none (k ∷ ks) h = elim (Option-cases (take_first ready ks)) [
    | inl e ↦ (ground (arith, h, e), take_first-none ks e)
    | inr (p, e) ↦ absurd (ground (arith, h, e))
  ]

  -- The key that is taken passes; it and the others are the keys.
  pub record Taken (ks : List ServiceKey) (k : ServiceKey) (rest : List ServiceKey) : Type 0 where
    pub passes : ready k ≡ true
    pub parts : (j : ServiceKey) → has_key j ks ≡ (same_key k j || has_key j rest)
    pub count : length ks ≡ suc (length rest)
    pub once : IsOnce ks → IsOnce rest × (has_key k rest ≡ false)

  some-inj {ℓ} : {A : Type ℓ} {a b : A} → some a ≡ some b → a ≡ b
  some-inj h = cc

  pub take_first-Taken :
      (ks : List ServiceKey) (k : ServiceKey) (rest : List ServiceKey)
      → take_first ready ks ≡ some (k, rest)
      → Taken ks k rest
  unfolding take_first has_key
  take_first-Taken [] k rest h = absurd (cc)
  take_first-Taken (i ∷ ks) k rest h = elim (Bool-cases (ready i)) [
    | inl e ↦
        subst (λ (p : ServiceKey × List ServiceKey). Taken (i ∷ ks) p.0 p.1)
          (some-inj (rw (e, take_first) at h))
          (record { passes = e; parts = λ j. refl; count = refl; once = λ u. (u.1, u.0) })
    | inr e ↦ elim (Option-cases (take_first ready ks)) [
      | inl f ↦ absurd (ground (arith, h, e, f))
      | inr ((j, others), f) ↦
          let t = take_first-Taken ks j others f in
          subst (λ (p : ServiceKey × List ServiceKey). Taken (i ∷ ks) p.0 p.1)
            (some-inj (rw (e, f, take_first) at h))
            (record {
              passes = t.passes;
              parts = λ m. ground (arith, t.parts m);
              count = ap suc t.count;
              once = λ u.
                  let (v, w) = t.once u.1 in
                  (
                    (ground (arith, u.0, t.parts i), v),
                    ground (arith, u.0, w, t.parts i, same_key_iff i j, same_key_iff j i),
                  );
            })
    ]
  ]

pub All-by_key :
    (Q : ServiceKey → Type 0) (ks : List ServiceKey)
    → ((j : ServiceKey) → has_key j ks ≡ true → Q j)
    → All Q ks
unfolding has_key
All-by_key Q [] f = tt
All-by_key Q (k ∷ ks) f =
    (f k (ground (arith, same_key_refl k)), All-by_key Q ks (λ j h. f j (ground (arith, h))))

All-of-++ :
    (P : ServiceDependency → Type 0) (xs ys : List ServiceDependency)
    → All P (xs ++ ys)
    → All P xs × All P ys
All-of-++ P [] ys h = (tt, h)
All-of-++ P (x ∷ xs) ys h = let (f, g) = All-of-++ P xs ys h.1 in ((h.0, f), g)

module _ (k j : ServiceKey) (P : ServiceDependency → Type 0) where
  edges-other :
      (i : ServiceKey) (ds : List ServiceDependency)
      → same_key k i ≡ false
      → All P (edges_to j i ds)
      → All (λ d. P d × (same_key k d.key ≡ false)) (edges_to j i ds)
  unfolding edges_to
  edges-other i [] e h = tt
  edges-other i (d ∷ ds) e h = elim (Bool-cases (same_key d.key j)) [
    | inl f ↦
        let g : P (record { key = i; required_version = d.required_version })
            × All P (edges_to j i ds) =
          rw (f, edges_to) at h in
        rw (f, edges_to) ((g.0, e), edges-other i ds e g.1)
    | inr f ↦ rw (f, edges_to) (edges-other i ds e (rw (f, edges_to) at h))
  ]

  fewer :
      (m : Dependencies)
      → All P (all_edges_to j m)
      → All (λ d. P d × (same_key k d.key ≡ false)) (all_edges_to j (delete k m))
  unfolding all_edges_to delete
  fewer [] h = tt
  fewer ((i, ds) ∷ m) h =
      let (f, g) = All-of-++ P (edges_to j i ds) (all_edges_to j m) h in
      elim (Bool-cases (same_key i k)) [
        | inl e ↦ rw (e, delete) (fewer m g)
        | inr e ↦
            rw (e, delete)
              (All-++ (λ d. P d × (same_key k d.key ≡ false)) (edges_to j i ds)
                (all_edges_to j (delete k m))
                (edges-other i ds (ground (arith, e, same_key_iff i k, same_key_iff k i)) f)
                (fewer m g))
      ]

-- Without the entry of a key the other dependents remain, and it is none of them.
pub dependents_of-delete :
    (before : ServiceKey → ServiceKey → Bool) (s t : ServiceRegistry) (k j : ServiceKey)
    (P : ServiceDependency → Type 0)
    → t.deps ≡ delete k s.deps
    → All P (dependents_of before s j)
    → All (λ d. P d × (same_key k d.key ≡ false)) (dependents_of before t j)
unfolding dependents_of
dependents_of-delete before s t k j P e h =
    All-sort_by (λ x y. before x.key y.key) (λ d. P d × (same_key k d.key ≡ false))
      (all_edges_to j t.deps)
      (subst (λ m. All (λ d. P d × (same_key k d.key ≡ false)) (all_edges_to j m)) (sym e)
        (fewer k j P s.deps
          (All-of-sort_by (λ x y. before x.key y.key) P (all_edges_to j s.deps) h)))
