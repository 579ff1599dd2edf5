-- ===== src/Services/Examples.antt =====
-- Runs of the registry of crates/kanbei-services/src/lib.rs at concrete services.
use kanbei.Base.{ℕ, ◌+◌, ◌≡◌, ◌≢◌, refl, List, [], ◌∷◌, ltb, Bool}
use kanbei.Base.Sorting.{sort_by}
use kanbei.Services.Types.{ServiceKey, ServiceDependency, ServiceProvider, err, dependency_cycle}
use kanbei.Services.Search.{out_of_fuel}
use kanbei.Services.Registry.Graph.{Dependencies, search, check_dependency_cycle}
use kanbei.Services.Registry.Ops.{ServiceRegistry, empty_registry}
use kanbei.Services.Registry.Acyclic.{search-ends}
use kanbei.Services.Registry.Runs.{
  Request, publishing, publishing_with_deps, replacing, removing, forcing, retiring, run,
  run-RegistryHolds,
}
use kanbei.Services.Registry.Holding.{RegistryHolds, empty_registry-RegistryHolds}

abbrev by_name : ServiceKey → ServiceKey → Bool
by_name a b = ltb a.name b.name

abbrev key : ℕ → ServiceKey
key n = record { scope = []; name = n }

abbrev needs : ℕ → ServiceDependency
needs n = record { key = key n; required_version = 1 }

abbrev served_by : ℕ → ℕ → ServiceProvider
served_by n version = record {
  module_id = n + 10;
  generation = 1;
  contract = record { name = n; version = version };
}

abbrev ring : Dependencies
ring = (key 1, needs 2 ∷ []) ∷ (key 2, needs 1 ∷ []) ∷ []

abbrev chain : Dependencies
chain = (key 2, needs 3 ∷ []) ∷ (key 3, []) ∷ []

-- Service 2 needs 1 and 3, in version 1.
abbrev three : ServiceRegistry
three = record {
  holders = (key 2, served_by 2 1) ∷ (key 3, served_by 3 1) ∷ (key 1, served_by 1 1) ∷ [];
  deps = (key 2, needs 1 ∷ needs 3 ∷ []) ∷ (key 3, []) ∷ (key 1, []) ∷ [];
}

ring_search :
    check_dependency_cycle by_name ring [] (served_by 1 1) []
    ≡ err (dependency_cycle (key 1 ∷ key 2 ∷ key 1 ∷ []))
unfolding check_dependency_cycle sort_by
ring_search = refl

publish_three :
    run by_name empty_registry (
      publishing (key 1) (served_by 1 1)
      ∷ publishing (key 3) (served_by 3 1)
      ∷ publishing_with_deps (key 2) (served_by 2 1) (needs 1 ∷ needs 3 ∷ [])
      ∷ [])
    ≡ three
unfolding run empty_registry sort_by
publish_three = refl

search-ends_example : search by_name ring ≢ out_of_fuel
search-ends_example = search-ends by_name ring

abbrev requests : List Request
requests =
    publishing (key 1) (served_by 1 1)
    ∷ publishing_with_deps (key 2) (served_by 2 1) (needs 1 ∷ [])
    ∷ publishing_with_deps (key 3) (served_by 3 1) (needs 2 ∷ [])
    ∷ publishing_with_deps (key 1) (served_by 1 1) (needs 3 ∷ [])
    ∷ replacing (key 2) (served_by 2 2)
        (record { current = served_by 2 1; proposed = served_by 2 2 })
    ∷ removing (key 1) 11
    ∷ forcing (key 3)
    ∷ retiring 1
    ∷ []

run-RegistryHolds_example : RegistryHolds (run by_name empty_registry requests)
run-RegistryHolds_example =
    run-RegistryHolds by_name empty_registry requests empty_registry-RegistryHolds
