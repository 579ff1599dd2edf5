-- ===== src/Services/Registry/Ops.antt =====
-- The operations of `ServiceRegistry` in crates/kanbei-services/src/lib.rs.
use kanbei.Base.{
  ℕ, Option, none, some, List, [], ◌∷◌, ◌++◌, if◌then◌else◌, ◌==◌, ◌||◌, not, Bool, is_some,
}
use kanbei.Base.Sorting.{sort_by}
use kanbei.Services.Types.{
  ServiceKey, ServiceDependency, ServiceProvider, ReplaceIntent, ScopePath, ServiceResult, ok, err,
  conflict, unresolved, scope_violation, dependents_exist, not_owner, version_mismatch,
  invalid_input, name_differs, proposed_differs, no_holder, not_published, same_key, same_provider,
  is_prefix, is_same_or_ancestor_of,
}
use kanbei.Services.KeyMap.{KeyMap, get, put, delete}
use kanbei.Services.Registry.Graph.{Dependencies, check_dependency_cycle}

pub record ServiceRegistry : Type 0 where
  pub holders : KeyMap ServiceProvider
  pub deps : Dependencies

unfoldable pub empty_registry : ServiceRegistry
empty_registry = record { holders = []; deps = [] }

unfoldable pub validate_key_contract : ServiceKey → ServiceProvider → ServiceResult {0} Unit
validate_key_contract key provider =
    if key.name == provider.contract.name
    then ok tt
    else err (invalid_input (name_differs provider.contract.name key.name))

-- `publish`, behind its first test.
unfoldable pub publish_free :
    ServiceKey → ServiceProvider → ServiceRegistry → ServiceRegistry × ServiceResult {0} Unit
unfolding get put
publish_free key provider r = elim (get key r.holders) [
  | some holder ↦ (r, err (conflict key holder provider))
  | none ↦ (record { holders = put key provider r.holders; deps = put key [] r.deps }, ok tt)
]

unfoldable pub publish :
    ServiceKey → ServiceProvider → ServiceRegistry → ServiceRegistry × ServiceResult {0} Unit
unfolding validate_key_contract publish_free
publish key provider r = elim (validate_key_contract key provider) [
  | err e ↦ (r, err e)
  | ok u ↦ publish_free key provider r
]

-- `entry(key).or_default()`.
unfoldable pub or_default : ServiceKey → Dependencies → Dependencies
unfolding get put
or_default key m = if is_some (get key m) then m else put key [] m

unfoldable pub replace_held :
    ServiceKey
    → ServiceProvider
    → ReplaceIntent
    → ServiceRegistry
    → ServiceRegistry × ServiceResult {0} Unit
unfolding get put or_default
replace_held key provider intent r = elim (get key r.holders) [
  | none ↦ (r, err (invalid_input (no_holder key)))
  | some holder ↦
      if not (holder.module_id == intent.current.module_id)
        || not (holder.generation == intent.current.generation)
      then (r, err (conflict key holder provider))
      else (record { holders = put key provider r.holders; deps = or_default key r.deps }, ok tt)
]

unfoldable pub replace_publish :
    ServiceKey
    → ServiceProvider
    → ReplaceIntent
    → ServiceRegistry
    → ServiceRegistry × ServiceResult {0} Unit
unfolding validate_key_contract same_provider replace_held
replace_publish key provider intent r = elim (validate_key_contract key provider) [
  | err e ↦ (r, err e)
  | ok u ↦
      if not (same_provider intent.proposed provider)
      then (r, err (invalid_input proposed_differs))
      else replace_held key provider intent r
]

unfoldable pub resolve :
    ServiceRegistry → ServiceKey → ℕ → ScopePath → ServiceResult ServiceProvider
unfolding is_prefix get
resolve r key required caller =
    if not (is_same_or_ancestor_of key.scope caller)
    then err (scope_violation key caller)
    else elim (get key r.holders) [
      | none ↦ err (unresolved key required)
      | some holder ↦
          if not (holder.contract.version == required)
          then err (version_mismatch key required holder.contract.version)
          else ok holder
    ]

-- The two loops of `dependents_of`, before sorting.
unfoldable pub edges_to : ServiceKey → ServiceKey → List ServiceDependency → List ServiceDependency
unfolding same_key
edges_to key dependent [] = []
edges_to key dependent (d ∷ ds) =
    let rest = edges_to key dependent ds in
    if same_key d.key key
    then record { key = dependent; required_version = d.required_version } ∷ rest
    else rest

unfoldable pub all_edges_to : ServiceKey → Dependencies → List ServiceDependency
unfolding edges_to
all_edges_to key [] = []
all_edges_to key ((dependent, ds) ∷ m) = edges_to key dependent ds ++ all_edges_to key m

-- `remove_generation`: the keys, then their removal.
unfoldable pub keys_of_generation : ℕ → KeyMap ServiceProvider → List ServiceKey
keys_of_generation generation [] = []
keys_of_generation generation ((k, p) ∷ m) =
    let rest = keys_of_generation generation m in
    if p.generation == generation then k ∷ rest else rest

unfoldable pub delete_all : List ServiceKey → ServiceRegistry → ServiceRegistry
unfolding delete
delete_all [] r = r
delete_all (k ∷ ks) r =
    delete_all ks (record { holders = delete k r.holders; deps = delete k r.deps })

unfoldable pub remove_generation : ℕ → ServiceRegistry → ServiceRegistry
unfolding keys_of_generation delete_all
remove_generation generation r = delete_all (keys_of_generation generation r.holders) r

unfoldable pub remove_forced :
    ServiceKey → ServiceRegistry → ServiceRegistry × Option ServiceProvider
unfolding get delete
remove_forced key r =
    (record { holders = delete key r.holders; deps = delete key r.deps }, get key r.holders)

-- `deps_of`.
unfoldable pub deps_of : ServiceRegistry → ServiceKey → List ServiceDependency
unfolding get
deps_of r key = elim (get key r.deps) [ none ↦ [] | some ds ↦ ds ]

-- Each holder with its dependencies.
unfoldable pub with_deps :
    ServiceRegistry
    → KeyMap ServiceProvider
    → List (ServiceKey × ServiceProvider × List ServiceDependency)
unfolding deps_of
with_deps s [] = []
with_deps s ((k, p) ∷ m) = (k, p, deps_of s k) ∷ with_deps s m

module _ (before : ServiceKey → ServiceKey → Bool) where
  unfoldable pub dependents_of : ServiceRegistry → ServiceKey → List ServiceDependency
  unfolding all_edges_to
  dependents_of r key = sort_by (λ a b. before a.key b.key) (all_edges_to key r.deps)

  unfoldable pub publish_with_deps :
      ServiceKey
      → ServiceProvider
      → List ServiceDependency
      → ServiceRegistry
      → ServiceRegistry × ServiceResult {0} Unit
  unfolding check_dependency_cycle publish put
  publish_with_deps key provider deps r =
      elim (check_dependency_cycle before r.deps deps provider key.scope) [
        | err e ↦ (r, err e)
        | ok u ↦ elim ((publish key provider r).1) [
          | err e ↦ ((publish key provider r).0, err e)
          | ok v ↦ (
            record (publish key provider r).0 {
              deps = put key deps (publish key provider r).0.deps;
            },
            ok tt,
          )
        ]
      ]

  -- `remove`, once the holder is found.
  unfoldable pub remove_held :
      ServiceKey
      → ℕ
      → ServiceProvider
      → List ServiceDependency
      → ServiceRegistry
      → ServiceRegistry × ServiceResult {0} Unit
  unfolding delete
  remove_held key module_id holder [] r =
      if not (holder.module_id == module_id)
      then (r, err (not_owner key module_id))
      else (record { holders = delete key r.holders; deps = delete key r.deps }, ok tt)
  remove_held key module_id holder (d ∷ ds) r =
      if not (holder.module_id == module_id)
      then (r, err (not_owner key module_id))
      else (r, err (dependents_exist key (d ∷ ds)))

  unfoldable pub remove :
      ServiceKey → ℕ → ServiceRegistry → ServiceRegistry × ServiceResult {0} Unit
  unfolding get dependents_of remove_held
  remove key module_id r = elim (get key r.holders) [
    | none ↦ (r, err (invalid_input (not_published key)))
    | some holder ↦ remove_held key module_id holder (dependents_of r key) r
  ]

  -- `snapshot`.
  unfoldable pub snapshot :
      ServiceRegistry → List (ServiceKey × ServiceProvider × List ServiceDependency)
  unfolding with_deps
  snapshot r = sort_by (λ a b. before a.0 b.0) (with_deps r r.holders)
