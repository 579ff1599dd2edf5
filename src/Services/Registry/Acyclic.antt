-- ===== src/Services/Registry/Acyclic.antt =====
-- Where the check of crates/kanbei-services/src/lib.rs finds no cycle, there is none.
use kanbei.Base.{
  ℕ, ◌≡◌, ◌≢◌, ◌<◌, ap, subst, inl, inr, some, List, [], leb, Bool, true, false, length, contains,
  All, All-mono, Option-cases, is_some, arith,
}
use kanbei.Base.Sorting.{sort_by, All-sort_by, All-of-sort_by}
use kanbei.Base.Map.{Map}
use kanbei.Services.Types.{
  ServiceKey, ServiceDependency, ServiceProvider, ScopePath, ServiceResult, ok, err, same_key, ◌>>◌,
}
use kanbei.Services.KeyMap.{get}
use kanbei.Services.Search.{DfsColor, black, Visit, cycle, clear, out_of_fuel, color_of}
use kanbei.Services.Search.Order.{Ranked, Visit-cases, visit_starts-Ranked}
use kanbei.Services.Search.Ending.{Within, whites, whites-le, visit_starts-Within}
use kanbei.Services.Registry.Graph.{
  Dependencies, keys, index_of, key_at, indices, extend, next_nodes, range_from, search, found,
  check_scopes, check_dependency_cycle,
}
use kanbei.Services.Registry.Indices.{
  contains-range_from, All-contains, All-range_from, length-range_from, rank_at, index_of-lt,
  index_of-key_at, index_of-none, get-none, All-indices, All-of-indices, start_black, start_gray,
}

-- The published keys have ranks, each above those of the published keys that it depends on.
pub record IsAcyclic (m : Dependencies) : Type 0 where
  pub rank : ServiceKey → ℕ
  pub falls :
      (k : ServiceKey) (ds : List ServiceDependency)
      → get k m ≡ some ds
      → All (λ d. is_some (get d.key m) ≡ true → rank d.key < rank k) ds

module _ (before : ServiceKey → ServiceKey → Bool) (m : Dependencies) where
  abbrev sorted : List ServiceKey
  sorted = sort_by before (keys m)

  next_nodes-below :
      (u : ℕ) → All (λ s. contains s (range_from 0 (length sorted)) ≡ true) (next_nodes m sorted u)
  unfolding next_nodes
  next_nodes-below u = elim (Option-cases (key_at sorted u)) [
    | inl e ↦ rw (e, next_nodes) tt
    | inr (k, e) ↦ elim (Option-cases (get k m)) [
      | inl g ↦ rw (e, g, next_nodes) tt
      | inr (ds, g) ↦
          rw (e, g, next_nodes)
            (All-sort_by leb (λ s. contains s (range_from 0 (length sorted)) ≡ true)
              (indices sorted ds)
              (All-indices (λ s. contains s (range_from 0 (length sorted)) ≡ true) sorted ds
                (λ d i f.
                  contains-range_from i 0 (length sorted) (omega arith)
                    (omega (arith, index_of-lt d.key sorted i f)))))
    ]
  ]

  -- The search of the graph ends.
  pub search-ends : search before m ≢ out_of_fuel
  unfolding search
  search-ends h =
      let w =
        visit_starts-Within (range_from 0 (length sorted)) (next_nodes m sorted) (length sorted)
          (range_from 0 (length sorted)) [] next_nodes-below
          (All-range_from (length sorted) 0 (length sorted) (omega arith))
          (rw length-range_from at (whites-le (range_from 0 (length sorted)) [])) in
      cc (
        subst
          (λ (v : Visit).
            Within (range_from 0 (length sorted)) v (whites (range_from 0 (length sorted)) []))
          h w)

  start_Ranked : Ranked (next_nodes m sorted) []
  start_Ranked = record {
    rank = λ u. 0;
    top = 0;
    below = λ u b. absurd (start_black u b);
    falls = λ u b. absurd (start_black u b);
  }

  index_of-get :
      (k : ServiceKey) → is_some (get k m) ≡ true → (i : ℕ) × (index_of k sorted ≡ some i)
  index_of-get k h = elim (Option-cases (index_of k sorted)) [
    | inr there ↦ there
    | inl e ↦ absurd (
        ground (
          arith,
          h,
          get-none k m (
              All-of-sort_by before (λ j. same_key j k ≡ false) (keys m)
                (index_of-none k sorted e)),
        ))
  ]

  falls-key :
      {color : Map DfsColor} (r : Ranked (next_nodes m sorted) color) (k : ServiceKey)
      (ds : List ServiceDependency)
      → get k m ≡ some ds
      → All (λ s. color_of s color ≡ black) (range_from 0 (length sorted))
      → All
          (λ d.
            is_some (get d.key m) ≡ true
            → rank_at r.rank (index_of d.key sorted) < rank_at r.rank (index_of k sorted))
          ds
  unfolding next_nodes rank_at
  falls-key {color} r k ds e blacks =
      let (i, at) = index_of-get k (ap is_some e) in
      let black_i =
        All-contains (λ s. color_of s color ≡ black) i (range_from 0 (length sorted)) blacks
          (contains-range_from i 0 (length sorted) (omega arith)
            (omega (arith, index_of-lt k sorted i at))) in
      let below : All (λ v. (color_of v color ≡ black) × (r.rank v < r.rank i))
          (sort_by leb (indices sorted ds)) =
        rw (index_of-key_at k sorted i at, e, next_nodes) at (r.falls i black_i) in
      All-mono
        (λ d.
          (j : ℕ)
          → index_of d.key sorted ≡ some j
          → (color_of j color ≡ black) × (r.rank j < r.rank i))
        (λ d.
          is_some (get d.key m) ≡ true
          → rank_at r.rank (index_of d.key sorted) < rank_at r.rank (index_of k sorted))
        (λ d f g. let (j, there) = index_of-get d.key g in rw (there, at, rank_at) (f j there).1) ds
        (All-of-indices (λ v. (color_of v color ≡ black) × (r.rank v < r.rank i)) sorted ds
          (All-of-sort_by leb (λ v. (color_of v color ≡ black) × (r.rank v < r.rank i))
            (indices sorted ds) below))

  search-IsAcyclic : (color : Map DfsColor) → search before m ≡ clear color → IsAcyclic m
  unfolding search
  search-IsAcyclic color h =
      let p =
        visit_starts-Ranked (next_nodes m sorted) (length sorted) (range_from 0 (length sorted)) []
          color start_Ranked (λ v k. start_gray v k) h in
      let r = p.0.ranked in
      record {
        rank = λ k. rank_at r.rank (index_of k sorted);
        falls = λ k ds e. falls-key r k ds e p.1;
      }

found_cycle :
    (checked : ServiceResult {0} Unit) (before : ServiceKey → ServiceKey → Bool) (g : Dependencies)
    (ns : List ℕ)
    → search before g ≡ cycle ns
    → (checked >> found before g (search before g)) ≢ ok tt
unfolding found
found_cycle (ok u) before g ns e h = ground (arith, e, h)
found_cycle (err x) before g ns e h = cc

-- A check that passes leaves the graph with the new edges acyclic.
pub check_dependency_cycle-IsAcyclic :
    (before : ServiceKey → ServiceKey → Bool) (m : Dependencies) (new : List ServiceDependency)
    (provider : ServiceProvider) (scope : ScopePath)
    → check_dependency_cycle before m new provider scope ≡ ok tt
    → IsAcyclic (extend (record { scope = scope; name = provider.contract.name }) new m)
unfolding check_dependency_cycle found
check_dependency_cycle-IsAcyclic before m new provider scope h =
    let g = extend (record { scope = scope; name = provider.contract.name }) new m in
    elim (Visit-cases (search before g)) [
      | inl (color, e) ↦ search-IsAcyclic before g color e
      | inr (inl (ns, e)) ↦ absurd (found_cycle (check_scopes new scope) before g ns e h)
      | inr (inr e) ↦ absurd (search-ends before g e)
    ]
