-- ===== src/Scopes/Removal/Edges.antt =====
-- The dependents that `remove_scope` of crates/kanbei-scopes/src/registry.rs follows, in a registry whose maps have
-- each key once.
use kanbei.Base.{
  ℕ, ◌≡◌, ◌<◌, ap, subst, inl, inr, Bool, true, some, List, [], ◌∷◌, ◌++◌, All, All-mono,
  Bool-cases, is_some,
}
use kanbei.Base.Sorting.{All-sort_by}
use kanbei.Services.Types.{ServiceKey, ServiceDependency, same_key, same_key_iff}
use kanbei.Services.Unique.{IsUnique, IsUnique-Stored}
use kanbei.Services.KeyMap.{get}
use kanbei.Services.Registry.Graph.{Dependencies}
use kanbei.Services.Registry.Ops.{ServiceRegistry, edges_to, all_edges_to, dependents_of}
use kanbei.Services.Registry.Acyclic.{IsAcyclic}

pub All-++ {ℓ} :
    {A : Type ℓ} (P : A → Type 0) (xs ys : List A) → All P xs → All P ys → All P (xs ++ ys)
All-++ P [] ys h k = k
All-++ P (x ∷ xs) ys h k = (h.0, All-++ P xs ys h.1 k)

-- An edge of the key `j` to `k`: what holds of `j` when one of its dependencies is on `k`.
All-edges_to :
    (P : ServiceDependency → Type 0) (k j : ServiceKey) (ds : List ServiceDependency)
    → All (λ d. same_key d.key k ≡ true → (n : ℕ) → P (record { key = j; required_version = n })) ds
    → All P (edges_to k j ds)
unfolding edges_to
All-edges_to P k j [] h = tt
All-edges_to P k j (d ∷ ds) h = elim (Bool-cases (same_key d.key k)) [
  | inl e ↦ rw (e, edges_to) (h.0 e d.required_version, All-edges_to P k j ds h.1)
  | inr e ↦ rw (e, edges_to) (All-edges_to P k j ds h.1)
]

All-all_edges_to :
    (P : ServiceDependency → Type 0) (k : ServiceKey) (m : Dependencies)
    → All
        (λ e.
          All
            (λ d.
              same_key d.key k ≡ true → (n : ℕ) → P (record { key = e.0; required_version = n }))
            e.1)
        m
    → All P (all_edges_to k m)
unfolding all_edges_to
All-all_edges_to P k [] h = tt
All-all_edges_to P k ((j, ds) ∷ m) h =
    All-++ P (edges_to k j ds) (all_edges_to k m) (All-edges_to P k j ds h.0)
      (All-all_edges_to P k m h.1)

-- A dependent of a published service is published, and of a higher rank.
Above : {m : Dependencies} → IsAcyclic m → ServiceKey → ServiceDependency → Type 0
Above {m} a k d = (is_some (get d.key m) ≡ true) × (a.rank k < a.rank d.key)

module _ (before : ServiceKey → ServiceKey → Bool) where
  pub dependents_of-Above :
      (s : ServiceRegistry) (a : IsAcyclic s.deps) (k : ServiceKey)
      → IsUnique s.deps
      → is_some (get k s.deps) ≡ true
      → All
          (λ d. (is_some (get d.key s.deps) ≡ true) × (a.rank k < a.rank d.key))
          (dependents_of before s k)
  unfolding dependents_of
  dependents_of-Above s a k u there =
      All-sort_by (λ x y. before x.key y.key)
        (λ d. (is_some (get d.key s.deps) ≡ true) × (a.rank k < a.rank d.key))
        (all_edges_to k s.deps)
        (All-all_edges_to (λ d. (is_some (get d.key s.deps) ≡ true) × (a.rank k < a.rank d.key)) k
          s.deps
          (All-mono (λ e. get e.0 s.deps ≡ some e.1)
            (λ e.
              All
                (λ d.
                  same_key d.key k ≡ true
                  → (n : ℕ) → (is_some (get e.0 s.deps) ≡ true) × (a.rank k < a.rank e.0))
                e.1)
            (λ e f.
              All-mono (λ d. is_some (get d.key s.deps) ≡ true → a.rank d.key < a.rank e.0)
                (λ d.
                  same_key d.key k ≡ true
                  → (n : ℕ) → (is_some (get e.0 s.deps) ≡ true) × (a.rank k < a.rank e.0))
                (λ d g t n. (
                  ap is_some f,
                  subst (λ j. is_some (get j s.deps) ≡ true → a.rank j < a.rank e.0)
                      ((same_key_iff d.key k).0 t) g there,
                ))
                e.1 (a.falls e.0 e.1 f))
            s.deps (IsUnique-Stored s.deps u)))
