-- ===== src/Services/Registry/Invariant.antt =====
-- Every operation of the registry of crates/kanbei-services/src/lib.rs keeps its dependencies acyclic.
use kanbei.Base.{
  ℕ, ◌+◌, ◌≡◌, ◌<◌, subst, ◌⊎◌, inl, inr, some, List, [], ◌∷◌, ◌++◌, if◌then◌else◌, true, false,
  All, All-mono, Bool-cases, is_some, arith,
}
use kanbei.Services.Types.{ServiceKey, ServiceDependency, same_key, same_key_iff}
use kanbei.Services.KeyMap.{get, put, delete, get-put, get-delete}
use kanbei.Services.Registry.Graph.{Dependencies, extend}
use kanbei.Services.Registry.Acyclic.{IsAcyclic}

pub delete-IsAcyclic : (k : ServiceKey) (m : Dependencies) → IsAcyclic m → IsAcyclic (delete k m)
delete-IsAcyclic k m a = record {
  rank = a.rank;
  falls = λ j ds e.
      All-mono (λ d. is_some (get d.key m) ≡ true → a.rank d.key < a.rank j)
        (λ d. is_some (get d.key (delete k m)) ≡ true → a.rank d.key < a.rank j)
        (λ d f h. f (ground (arith, h, get-delete k d.key m))) ds
        (a.falls j ds (ground (arith, e, get-delete k j m)));
}

-- The key, once it has no edges, goes below all others.
lowest : (ServiceKey → ℕ) → ServiceKey → ServiceKey → ℕ
lowest rank k j = if same_key k j then 0 else rank j + 1

pub put_nil-IsAcyclic : (k : ServiceKey) (m : Dependencies) → IsAcyclic m → IsAcyclic (put k [] m)
unfolding lowest
put_nil-IsAcyclic k m a = record {
  rank = lowest a.rank k;
  falls = λ j ds e. elim (Bool-cases (same_key k j)) [
    | inl s ↦
        subst
          (All (λ d.
            is_some (get d.key (put k [] m)) ≡ true → lowest a.rank k d.key < lowest a.rank k j))
          {x = []} (ground (arith, s, e, get-put k j [] m)) tt
    | inr s ↦
        All-mono (λ d. is_some (get d.key m) ≡ true → a.rank d.key < a.rank j)
          (λ d. is_some (get d.key (put k [] m)) ≡ true → lowest a.rank k d.key < lowest a.rank k j)
          (λ d f h. ground (arith, s, h, f, get-put k d.key [] m)) ds
          (a.falls j ds (ground (arith, s, e, get-put k j [] m)))
  ];
}

get-extend :
    (k j : ServiceKey) (new : List ServiceDependency) (m : Dependencies)
    → (get j (extend k new m) ≡ get j m) × (same_key k j ≡ false)
      ⊎ ((old : List ServiceDependency) × (get j (extend k new m) ≡ some (old ++ new))
          × (same_key k j ≡ true))
unfolding get extend
get-extend k j new [] = elim (Bool-cases (same_key k j)) [
  | inl s ↦ inr ([], ground (arith, s), s)
  | inr s ↦ inl (ground (arith, s), s)
]
get-extend k j new ((i, ds) ∷ m) = elim (Bool-cases (same_key i k)) [
  | inl t ↦ elim (Bool-cases (same_key k j)) [
    | inl s ↦ inr (ds, ground (arith, s, t, same_key_iff i k), s)
    | inr s ↦ inl (ground (arith, s, t, same_key_iff i k), s)
  ]
  | inr t ↦ elim (Bool-cases (same_key i j)) [
    | inl u ↦ inl (
      ground (arith, t, u),
      ground (arith, t, u, same_key_iff i j, same_key_iff i k, same_key_iff k j),
    )
    | inr u ↦ elim (get-extend k j new m) [
      | inl (p, q) ↦ inl (ground (arith, t, u, p), q)
      | inr (old, p, q) ↦ inr (old, ground (arith, t, u, p), q)
    ]
  ]
]

All-right {ℓ} : {A : Type ℓ} (P : A → Type 0) (xs ys : List A) → All P (xs ++ ys) → All P ys
All-right P [] ys h = h
All-right P (x ∷ xs) ys h = All-right P xs ys h.1

known-extend :
    (k j : ServiceKey) (new : List ServiceDependency) (m : Dependencies)
    → is_some (get j (put k new (put k [] m))) ≡ true
    → is_some (get j (extend k new m)) ≡ true
known-extend k j new m h = elim (get-extend k j new m) [
  | inl (p, s) ↦ ground (arith, h, p, s, get-put k j new (put k [] m), get-put k j [] m)
  | inr (old, p, s) ↦ ground (arith, p)
]

-- The edges that were checked are put in the place of the old ones.
pub put-IsAcyclic :
    (k : ServiceKey) (new : List ServiceDependency) (m : Dependencies)
    → IsAcyclic (extend k new m)
    → IsAcyclic (put k new (put k [] m))
put-IsAcyclic k new m a = record {
  rank = a.rank;
  falls = λ j ds e.
      All-mono (λ d. is_some (get d.key (extend k new m)) ≡ true → a.rank d.key < a.rank j)
        (λ d. is_some (get d.key (put k new (put k [] m))) ≡ true → a.rank d.key < a.rank j)
        (λ d f h. f (known-extend k d.key new m h)) ds
        (elim (get-extend k j new m) [
          | inl (p, s) ↦
              a.falls j ds (ground (arith, s, e, p, get-put k j new (put k [] m), get-put k j [] m))
          | inr (old, p, s) ↦
              subst
                (All (λ d. is_some (get d.key (extend k new m)) ≡ true → a.rank d.key < a.rank j))
                {x = new} (ground (arith, s, e, get-put k j new (put k [] m)))
                (All-right
                  (λ d. is_some (get d.key (extend k new m)) ≡ true → a.rank d.key < a.rank j) old
                  new (a.falls j (old ++ new) p))
        ]);
}
