-- ===== src/Services/Registry/Graph.antt =====
-- `check_dependency_cycle` of crates/kanbei-services/src/lib.rs: the graph of the declared dependencies, and its
-- search. Fuel for each node is enough, so that the search never ends for want of it.
use kanbei.Base.{
  ℕ, zero, suc, ◌+◌, Option, none, some, List, [], ◌∷◌, ◌++◌, if◌then◌else◌, leb, Bool, length,
}
use kanbei.Base.Sorting.{sort_by}
use kanbei.Services.Types.{
  ServiceKey, ServiceDependency, ServiceProvider, ScopePath, ServiceResult, ok, err,
  scope_violation, dependency_cycle, same_key, is_prefix, is_same_or_ancestor_of, ◌>>◌,
}
use kanbei.Services.KeyMap.{KeyMap, get}
use kanbei.Services.Search.{Visit, cycle, clear, out_of_fuel, visit_starts}

abbrev pub Dependencies : Type 0
Dependencies = KeyMap (List ServiceDependency)

abbrev pub keys {ℓ} : {V : Type ℓ} → KeyMap V → List ServiceKey
keys [] = []
keys ((k, v) ∷ m) = k ∷ keys m

-- `index`, and `keys[i]`.
unfoldable pub index_of : ServiceKey → List ServiceKey → Option ℕ
unfolding same_key
index_of k [] = none
index_of k (j ∷ js) =
    if same_key j k then some 0 else (elim (index_of k js) [ none ↦ none | some i ↦ some (i + 1) ])

unfoldable pub key_at : List ServiceKey → ℕ → Option ServiceKey
key_at [] i = none
key_at (k ∷ ks) zero = some k
key_at (k ∷ ks) (suc i) = key_at ks i

-- `filter_map(|k| index.get(k))`.
unfoldable pub indices : List ServiceKey → List ServiceDependency → List ℕ
unfolding index_of
indices ks [] = []
indices ks (d ∷ ds) = elim (index_of d.key ks) [ none ↦ indices ks ds | some i ↦ i ∷ indices ks ds ]

-- `successors`: the new edges are added to those that the new key has.
unfoldable pub extend : ServiceKey → List ServiceDependency → Dependencies → Dependencies
extend k new [] = (k, new) ∷ []
extend k new ((j, ds) ∷ m) =
    let rest = extend k new m in if same_key j k then (j, ds ++ new) ∷ m else (j, ds) ∷ rest

unfoldable pub next_nodes : Dependencies → List ServiceKey → ℕ → List ℕ
unfolding key_at get indices
next_nodes m ks i = elim (key_at ks i) [
  | none ↦ []
  | some k ↦ elim (get k m) [ none ↦ [] | some ds ↦ sort_by leb (indices ks ds) ]
]

-- `0..n`, behind `i`.
unfoldable pub range_from : ℕ → ℕ → List ℕ
range_from i zero = []
range_from i (suc n) = i ∷ range_from (i + 1) n

unfoldable pub keys_at : List ServiceKey → List ℕ → List ServiceKey
unfolding key_at
keys_at ks [] = []
keys_at ks (i ∷ is) = elim (key_at ks i) [ none ↦ keys_at ks is | some k ↦ k ∷ keys_at ks is ]

-- The first loop of `check_dependency_cycle`.
unfoldable pub check_scopes : List ServiceDependency → ScopePath → ServiceResult {0} Unit
unfolding is_prefix
check_scopes [] scope = ok tt
check_scopes (d ∷ ds) scope =
    let rest = check_scopes ds scope in
    if is_same_or_ancestor_of d.key.scope scope then rest else err (scope_violation d.key scope)

module _ (before : ServiceKey → ServiceKey → Bool) where
  unfoldable pub search : Dependencies → Visit
  unfolding next_nodes range_from visit_starts
  search m =
      let ks = sort_by before (keys m) in
      visit_starts (next_nodes m ks) (length ks) (range_from 0 (length ks)) []

  unfoldable pub found : Dependencies → Visit → ServiceResult {0} Unit
  unfolding keys_at
  found m (cycle nodes) = err (dependency_cycle (keys_at (sort_by before (keys m)) nodes))
  found m (clear color) = ok tt
  found m out_of_fuel = ok tt

  unfoldable pub check_dependency_cycle :
      Dependencies → List ServiceDependency → ServiceProvider → ScopePath → ServiceResult {0} Unit
  unfolding check_scopes extend search found
  check_dependency_cycle deps new provider scope =
      let m = extend (record { scope = scope; name = provider.contract.name }) new deps in
      check_scopes new scope >> found m (search m)
