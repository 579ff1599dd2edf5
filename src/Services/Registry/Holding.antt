-- ===== src/Services/Registry/Holding.antt =====
-- The well-formedness of the registry of crates/kanbei-services/src/lib.rs, and the operations that keep it.
use kanbei.Base.{
  ℕ, ◌≡◌, refl, inl, inr, some, List, [], ◌∷◌, if◌then◌else◌, ◌==◌, ==_iff, ◌||◌, not, Bool, true,
  Option-cases, Bool-cases, is_some, arith,
}
use kanbei.Services.Types.{
  ServiceKey, ServiceDependency, ServiceProvider, ReplaceIntent, same_key, same_key_iff,
  same_provider,
}
use kanbei.Services.Unique.{IsUnique, delete-IsUnique, put-IsUnique}
use kanbei.Services.KeyMap.{get, put, delete, get-put, get-delete}
use kanbei.Services.Registry.Graph.{Dependencies}
use kanbei.Services.Registry.Ops.{
  ServiceRegistry, empty_registry, validate_key_contract, publish_free, publish, or_default,
  replace_held, replace_publish, delete_all, remove_held, remove, dependents_of,
}
use kanbei.Services.Registry.Acyclic.{IsAcyclic}
use kanbei.Services.Registry.Invariant.{delete-IsAcyclic, put_nil-IsAcyclic}

-- The edges have no cycle, exactly the published keys have edges, a holder has the name of its key, and the maps
-- have each key once.
pub record RegistryHolds (r : ServiceRegistry) : Type 0 where
  pub acyclic : IsAcyclic r.deps
  pub paired : (k : ServiceKey) → is_some (get k r.holders) ≡ is_some (get k r.deps)
  pub named :
      (k : ServiceKey) (p : ServiceProvider) → get k r.holders ≡ some p → k.name ≡ p.contract.name
  pub unique_holders : IsUnique r.holders
  pub unique_deps : IsUnique r.deps

pub empty_registry-RegistryHolds : RegistryHolds empty_registry
unfolding empty_registry get
empty_registry-RegistryHolds = record {
  acyclic = record { rank = λ k. 0; falls = λ k ds e. absurd (cc) };
  paired = λ k. refl;
  named = λ k p e. absurd (cc);
  unique_holders = tt;
  unique_deps = tt;
}

pub holding :
    (k : ServiceKey) (p : ServiceProvider) (r : ServiceRegistry) (m : Dependencies)
    → RegistryHolds r
    → k.name ≡ p.contract.name
    → IsAcyclic m
    → IsUnique m
    → ((j : ServiceKey)
        → is_some (get j m) ≡ (if same_key k j then true else is_some (get j r.deps)))
    → RegistryHolds (record { holders = put k p r.holders; deps = m })
holding k p r m w n a u f = record {
  acyclic = a;
  paired = λ j. ground (arith, f j, w.paired j, get-put k j p r.holders);
  named = λ j q e. elim (Bool-cases (same_key k j)) [
    | inl s ↦ ground (arith, e, s, n, same_key_iff k j, get-put k j p r.holders)
    | inr s ↦ w.named j q (ground (arith, e, s, get-put k j p r.holders))
  ];
  unique_holders = put-IsUnique k p r.holders w.unique_holders;
  unique_deps = u;
}

pub deleting :
    (k : ServiceKey) (r : ServiceRegistry)
    → RegistryHolds r
    → RegistryHolds (record { holders = delete k r.holders; deps = delete k r.deps })
deleting k r w = record {
  acyclic = delete-IsAcyclic k r.deps w.acyclic;
  paired = λ j. ground (arith, w.paired j, get-delete k j r.holders, get-delete k j r.deps);
  named = λ j q e. w.named j q (ground (arith, e, get-delete k j r.holders));
  unique_holders = delete-IsUnique k r.holders w.unique_holders;
  unique_deps = delete-IsUnique k r.deps w.unique_deps;
}

pub delete_all-RegistryHolds :
    (ks : List ServiceKey) (r : ServiceRegistry) → RegistryHolds r → RegistryHolds (delete_all ks r)
unfolding delete_all
delete_all-RegistryHolds [] r w = w
delete_all-RegistryHolds (k ∷ ks) r w =
    delete_all-RegistryHolds ks (record { holders = delete k r.holders; deps = delete k r.deps })
      (deleting k r w)

publish_free-RegistryHolds :
    (k : ServiceKey) (p : ServiceProvider) (r : ServiceRegistry)
    → RegistryHolds r
    → k.name ≡ p.contract.name
    → RegistryHolds (publish_free k p r).0
unfolding publish_free
publish_free-RegistryHolds k p r w n = elim (Option-cases (get k r.holders)) [
  | inl e ↦
      rw (e, publish_free)
        (holding k p r (put k [] r.deps) w n (put_nil-IsAcyclic k r.deps w.acyclic)
          (put-IsUnique k [] r.deps w.unique_deps) (λ j. ground (arith, get-put k j [] r.deps)))
  | inr (q, e) ↦ rw (e, publish_free) w
]

pub publish-RegistryHolds :
    (k : ServiceKey) (p : ServiceProvider) (r : ServiceRegistry)
    → RegistryHolds r
    → RegistryHolds (publish k p r).0
unfolding publish validate_key_contract
publish-RegistryHolds k p r w = elim (Bool-cases (k.name == p.contract.name)) [
  | inl e ↦
      rw (e, publish) (publish_free-RegistryHolds k p r w ((==_iff k.name p.contract.name).0 e))
  | inr e ↦ rw (e, publish) w
]

or_default-IsUnique : (k : ServiceKey) (m : Dependencies) → IsUnique m → IsUnique (or_default k m)
unfolding or_default
or_default-IsUnique k m u = elim (Bool-cases (is_some (get k m))) [
  | inl e ↦ rw (e, or_default) u
  | inr e ↦ rw (e, or_default) (put-IsUnique k [] m u)
]

or_default-IsAcyclic :
    (k : ServiceKey) (m : Dependencies) → IsAcyclic m → IsAcyclic (or_default k m)
unfolding or_default
or_default-IsAcyclic k m a = elim (Bool-cases (is_some (get k m))) [
  | inl e ↦ rw (e, or_default) a
  | inr e ↦ rw (e, or_default) (put_nil-IsAcyclic k m a)
]

get-or_default :
    (k j : ServiceKey) (m : Dependencies)
    → is_some (get j (or_default k m)) ≡ (if same_key k j then true else is_some (get j m))
unfolding or_default
get-or_default k j m = ground (arith, get-put k j [] m, same_key_iff k j)

replace_held-RegistryHolds :
    (k : ServiceKey) (p : ServiceProvider) (intent : ReplaceIntent) (r : ServiceRegistry)
    → RegistryHolds r
    → k.name ≡ p.contract.name
    → RegistryHolds (replace_held k p intent r).0
unfolding replace_held
replace_held-RegistryHolds k p intent r w n = elim (Option-cases (get k r.holders)) [
  | inl e ↦ rw (e, replace_held) w
  | inr (q, e) ↦
      elim (Bool-cases (
        not (q.module_id == intent.current.module_id)
        || not (q.generation == intent.current.generation))) [
          | inl t ↦ rw (e, t, replace_held) w
          | inr t ↦
              rw (e, t, replace_held)
                (holding k p r (or_default k r.deps) w n (or_default-IsAcyclic k r.deps w.acyclic)
                  (or_default-IsUnique k r.deps w.unique_deps) (λ j. get-or_default k j r.deps))
        ]
]

pub replace_publish-RegistryHolds :
    (k : ServiceKey) (p : ServiceProvider) (intent : ReplaceIntent) (r : ServiceRegistry)
    → RegistryHolds r
    → RegistryHolds (replace_publish k p intent r).0
unfolding replace_publish validate_key_contract
replace_publish-RegistryHolds k p intent r w = elim (Bool-cases (k.name == p.contract.name)) [
  | inr e ↦ rw (e, replace_publish) w
  | inl e ↦ elim (Bool-cases (same_provider intent.proposed p)) [
    | inl t ↦
        rw (e, t, replace_publish)
          (replace_held-RegistryHolds k p intent r w ((==_iff k.name p.contract.name).0 e))
    | inr t ↦ rw (e, t, replace_publish) w
  ]
]

module _ (before : ServiceKey → ServiceKey → Bool) where
  remove_held-RegistryHolds :
      (k : ServiceKey) (module_id : ℕ) (q : ServiceProvider) (ds : List ServiceDependency)
      (r : ServiceRegistry)
      → RegistryHolds r
      → RegistryHolds (remove_held before k module_id q ds r).0
  unfolding remove_held
  remove_held-RegistryHolds k module_id q [] r w = elim (Bool-cases (q.module_id == module_id)) [
    | inl e ↦ rw (e, remove_held) (deleting k r w)
    | inr e ↦ rw (e, remove_held) w
  ]
  remove_held-RegistryHolds k module_id q (d ∷ ds) r w =
      elim (Bool-cases (q.module_id == module_id)) [
        | inl e ↦ rw (e, remove_held) w
        | inr e ↦ rw (e, remove_held) w
      ]

  pub remove-RegistryHolds :
      (k : ServiceKey) (module_id : ℕ) (r : ServiceRegistry)
      → RegistryHolds r
      → RegistryHolds (remove before k module_id r).0
  unfolding remove
  remove-RegistryHolds k module_id r w = elim (Option-cases (get k r.holders)) [
    | inl e ↦ rw (e, remove) w
    | inr (q, e) ↦
        rw (e, remove) (remove_held-RegistryHolds k module_id q (dependents_of before r k) r w)
  ]
