-- ===== src/Scopes/Tree.antt =====
-- `ScopeTree` of crates/kanbei-scopes/src/scope_tree.rs. `remove` is `ContributionRegistry::remove_scope` over the
-- state that the tree does not read. The recursion of `dispose_scope` has fuel for its depth.
use kanbei.Base.{
  ℕ, zero, suc, Bool, true, false, ◌||◌, not, ◌==◌, Option, none, some, List, [], ◌∷◌, ◌++◌, map,
  if◌then◌else◌,
}
use kanbei.Base.Ranking.{filter}
use kanbei.Base.Sorting.{sort_by}
use kanbei.Base.Table.{Table, find, drop, store}
use kanbei.Services.Types.{ScopePath, same_path}
use kanbei.Scopes.Contrib.{
  ScopeError, duplicate_scope, invalid_input, nested_scope, no_root, empty_scope_name,
  unknown_scope, ScopeResult, ok, err,
}

pub data OwnerLease : Type 0 where
  generation : ℕ → OwnerLease
  run : ℕ → OwnerLease

pub record Scope : Type 0 where
  pub path : ScopePath
  pub owner : OwnerLease
  pub parent : Option ScopePath
  pub children : List ScopePath

abbrev pub ScopeTree : Type 0
ScopeTree = Table ScopePath Scope

unfoldable pub new_root : ScopeTree
new_root = ([], record { path = []; owner = run 0; parent = none; children = [] }) ∷ []

-- `c.0.last() == Some(name)`.
unfoldable pub last_is : ℕ → ScopePath → Bool
last_is name [] = false
last_is name (n ∷ []) = n == name
last_is name (n ∷ m ∷ ns) = last_is name (m ∷ ns)

unfoldable pub any_last : ℕ → List ScopePath → Bool
unfolding last_is
any_last name [] = false
any_last name (c ∷ cs) = last_is name c || any_last name cs

unfoldable pub is_root : ScopePath → Bool
is_root [] = true
is_root (n ∷ ns) = false

-- The child is listed under the root, then stored.
unfoldable pub with_child : ScopeTree → Scope → ℕ → OwnerLease → ScopeTree
unfolding store same_path
with_child tree root name owner =
    store same_path (name ∷ [])
      (record { path = name ∷ []; owner = owner; parent = some []; children = [] })
      (store same_path [] (record root { children = root.children ++ (name ∷ []) ∷ [] }) tree)

unfoldable pub create_child :
    ScopeTree → ScopePath → ℕ → OwnerLease → ScopeTree × ScopeResult ScopePath
unfolding find is_root any_last with_child same_path
create_child tree parent name owner =
    if not (is_root parent)
    then (tree, err (invalid_input nested_scope))
    else elim (find same_path [] tree) [
      | none ↦ (tree, err (invalid_input no_root))
      | some root ↦
          if name == 0
          then (tree, err (invalid_input empty_scope_name))
          else if any_last name root.children
          then (tree, err (duplicate_scope parent name))
          else (with_child tree root name owner, ok (name ∷ []))
    ]

-- The record goes, and its parent no longer lists it.
unfoldable pub unlist : ScopePath → Option ScopePath → ScopeTree → ScopeTree
unfolding find store filter same_path
unlist path none tree = tree
unlist path (some parent) tree = elim (find same_path parent tree) [
  | none ↦ tree
  | some p ↦
      store same_path parent
        (record p { children = filter (λ c. not (same_path c path)) p.children }) tree
]

pub data DisposeEnd : Type 0 where
  disposed : DisposeEnd
  failed : ScopeError → DisposeEnd
  too_deep : DisposeEnd

module _ {R : Type 0} (remove : ScopePath → Bool → R → R × Option ScopeError) where
  unfoldable pub remove_record :
      ScopePath → Scope → Bool → ScopeTree × R → (ScopeTree × R) × DisposeEnd
  unfolding drop unlist same_path
  remove_record path scope force (tree, r) =
      let (s, end) = remove path force r in
      elim end [
        | some e ↦ ((tree, s), failed e)
        | none ↦ ((unlist path scope.parent (drop same_path path tree), s), disposed)
      ]

  -- The loop over the children; `go` is the recursive call.
  unfoldable pub dispose_children :
      (ScopePath → ScopeTree × R → (ScopeTree × R) × DisposeEnd)
      → List ScopePath
      → ScopeTree × R
      → (ScopeTree × R) × DisposeEnd
  dispose_children go [] st = (st, disposed)
  dispose_children go (c ∷ cs) st =
      let next = go c st in
      elim next.1 [ disposed ↦ dispose_children go cs next.0 | failed e ↦ next | too_deep ↦ next ]

  unfoldable pub finish_dispose :
      ScopePath → Scope → Bool → (ScopeTree × R) × DisposeEnd → (ScopeTree × R) × DisposeEnd
  unfolding remove_record
  finish_dispose path scope force (st, disposed) = remove_record path scope force st
  finish_dispose path scope force (st, failed e) = (st, failed e)
  finish_dispose path scope force (st, too_deep) = (st, too_deep)

  unfoldable pub dispose_scope : ℕ → Bool → ScopePath → ScopeTree × R → (ScopeTree × R) × DisposeEnd
  unfolding find dispose_children finish_dispose same_path
  dispose_scope zero force path st = (st, too_deep)
  dispose_scope (suc fuel) force path st = elim (find same_path path st.0) [
    | none ↦ (st, failed (invalid_input (unknown_scope path)))
    | some scope ↦
        finish_dispose path scope force
          (dispose_children (dispose_scope fuel force) scope.children st)
  ]

-- `scopes`; `above` orders displayed paths.
unfoldable pub scopes : (ScopePath → ScopePath → Bool) → ScopeTree → List Scope
unfolding sort_by
scopes above tree = sort_by (λ a b. above a.path b.path) (map (λ e. e.1) tree)
