-- ===== src/Services/Registry/Runs.antt =====
-- Sequences of requests to the registry of crates/kanbei-services/src/lib.rs, and what all of them keep.
use kanbei.Base.{
  ℕ, ◌≡◌, refl, sym, ap, subst, ◌⊎◌, inl, inr, List, [], ◌∷◌, ◌==◌, ==_iff, Bool, Option-cases,
  Bool-cases, arith,
}
use kanbei.Services.Types.{
  ServiceKey, ServiceDependency, ServiceProvider, ReplaceIntent, ServiceError, ServiceResult, ok,
  err,
}
use kanbei.Services.Unique.{put-IsUnique}
use kanbei.Services.KeyMap.{get, put, get-put}
use kanbei.Services.Registry.Graph.{extend, check_dependency_cycle}
use kanbei.Services.Registry.Ops.{
  ServiceRegistry, validate_key_contract, publish_free, publish, replace_publish, remove_generation,
  remove_forced, publish_with_deps, remove, keys_of_generation,
}
use kanbei.Services.Registry.Acyclic.{IsAcyclic, check_dependency_cycle-IsAcyclic}
use kanbei.Services.Registry.Invariant.{put-IsAcyclic}
use kanbei.Services.Registry.Holding.{
  RegistryHolds, holding, deleting, delete_all-RegistryHolds, publish-RegistryHolds,
  replace_publish-RegistryHolds, remove-RegistryHolds,
}

pub data Request : Type 0 where
  publishing : ServiceKey → ServiceProvider → Request
  publishing_with_deps : ServiceKey → ServiceProvider → List ServiceDependency → Request
  replacing : ServiceKey → ServiceProvider → ReplaceIntent → Request
  removing : ServiceKey → ℕ → Request
  forcing : ServiceKey → Request
  retiring : ℕ → Request

unfoldable pub apply :
    (ServiceKey → ServiceKey → Bool) → ServiceRegistry → Request → ServiceRegistry
unfolding publish publish_with_deps replace_publish remove remove_forced remove_generation
apply before r (publishing k p) = (publish k p r).0
apply before r (publishing_with_deps k p ds) = (publish_with_deps before k p ds r).0
apply before r (replacing k p intent) = (replace_publish k p intent r).0
apply before r (removing k module_id) = (remove before k module_id r).0
apply before r (forcing k) = (remove_forced k r).0
apply before r (retiring generation) = remove_generation generation r

unfoldable pub run :
    (ServiceKey → ServiceKey → Bool) → ServiceRegistry → List Request → ServiceRegistry
unfolding apply
run before r [] = r
run before r (q ∷ qs) = run before (apply before r q) qs

pub Result-cases : (c : ServiceResult {0} Unit) → (c ≡ ok tt) ⊎ ((e : ServiceError) × (c ≡ err e))
Result-cases (ok tt) = inl refl
Result-cases (err e) = inr (e, refl)

-- A publication that succeeds: the key was free and has the name of the contract.
pub publish-ok :
    (k : ServiceKey) (p : ServiceProvider) (r : ServiceRegistry)
    → (publish k p r).1 ≡ ok tt
    → (k.name ≡ p.contract.name)
      × ((publish k p r).0 ≡ record { holders = put k p r.holders; deps = put k [] r.deps })
unfolding publish validate_key_contract publish_free
publish-ok k p r h = elim (Bool-cases (k.name == p.contract.name)) [
  | inr e ↦ absurd (ground (arith, e, h))
  | inl e ↦ elim (Option-cases (get k r.holders)) [
    | inl f ↦ ((==_iff k.name p.contract.name).0 e, rw (e, f, publish, publish_free) refl)
    | inr (q, f) ↦ absurd (ground (arith, e, f, h))
  ]
]

module _ (before : ServiceKey → ServiceKey → Bool) where
  checked-IsAcyclic :
      (k : ServiceKey) (p : ServiceProvider) (ds : List ServiceDependency) (r : ServiceRegistry)
      → k.name ≡ p.contract.name
      → check_dependency_cycle before r.deps ds p k.scope ≡ ok tt
      → IsAcyclic (put k ds (put k [] r.deps))
  checked-IsAcyclic k p ds r n c = put-IsAcyclic k ds r.deps (
      subst (λ (a : ℕ). IsAcyclic (extend (record { scope = k.scope; name = a }) ds r.deps)) (sym n)
        (check_dependency_cycle-IsAcyclic before r.deps ds p k.scope c))

  pub publish_with_deps-RegistryHolds :
      (k : ServiceKey) (p : ServiceProvider) (ds : List ServiceDependency) (r : ServiceRegistry)
      → RegistryHolds r
      → RegistryHolds (publish_with_deps before k p ds r).0
  unfolding publish_with_deps
  publish_with_deps-RegistryHolds k p ds r w =
      elim (Result-cases (check_dependency_cycle before r.deps ds p k.scope)) [
        | inr (x, c) ↦ rw (c, publish_with_deps) w
        | inl c ↦ elim (Result-cases (publish k p r).1) [
          | inr (x, d) ↦ rw (c, d, publish_with_deps) (publish-RegistryHolds k p r w)
          | inl d ↦
              let (n, e) = publish-ok k p r d in
              rw (c, d, publish_with_deps)
                (subst (λ s. RegistryHolds (record { holders = s.holders; deps = put k ds s.deps }))
                  (sym e)
                  (holding k p r (put k ds (put k [] r.deps)) w n (checked-IsAcyclic k p ds r n c)
                    (put-IsUnique k ds (put k [] r.deps) (put-IsUnique k [] r.deps w.unique_deps))
                    (λ j. ground (arith, get-put k j ds (put k [] r.deps), get-put k j [] r.deps))))
        ]
      ]

  pub publish_with_deps-ok :
      (k : ServiceKey) (p : ServiceProvider) (ds : List ServiceDependency) (r : ServiceRegistry)
      → (publish_with_deps before k p ds r).1 ≡ ok tt
      → (publish_with_deps before k p ds r).0
        ≡ record { holders = put k p r.holders; deps = put k ds (put k [] r.deps) }
  unfolding publish_with_deps
  publish_with_deps-ok k p ds r h =
      elim (Result-cases (check_dependency_cycle before r.deps ds p k.scope)) [
        | inr (x, c) ↦ absurd (ground (arith, c, h))
        | inl c ↦ elim (Result-cases (publish k p r).1) [
          | inr (x, d) ↦ absurd (ground (arith, c, d, h))
          | inl d ↦
              rw (c, d, publish_with_deps)
                (ap (λ s. record { holders = s.holders; deps = put k ds s.deps })
                  (publish-ok k p r d).1)
        ]
      ]

  apply-RegistryHolds :
      (r : ServiceRegistry) (q : Request) → RegistryHolds r → RegistryHolds (apply before r q)
  unfolding apply remove_forced remove_generation
  apply-RegistryHolds r (publishing k p) w = publish-RegistryHolds k p r w
  apply-RegistryHolds r (publishing_with_deps k p ds) w = publish_with_deps-RegistryHolds k p ds r w
  apply-RegistryHolds r (replacing k p intent) w = replace_publish-RegistryHolds k p intent r w
  apply-RegistryHolds r (removing k module_id) w = remove-RegistryHolds before k module_id r w
  apply-RegistryHolds r (forcing k) w = deleting k r w
  apply-RegistryHolds r (retiring generation) w =
      delete_all-RegistryHolds (keys_of_generation generation r.holders) r w

  -- Requests to the registry keep it acyclic, with edges for exactly the published keys, each held by a provider of
  -- its name, and with each key once.
  pub run-RegistryHolds :
      (r : ServiceRegistry) (qs : List Request) → RegistryHolds r → RegistryHolds (run before r qs)
  unfolding run
  run-RegistryHolds r [] w = w
  run-RegistryHolds r (q ∷ qs) w =
      run-RegistryHolds (apply before r q) qs (apply-RegistryHolds r q w)
