-- ===== src/Scopes/Removal.antt =====
-- `remove_scope` of crates/kanbei-scopes/src/registry.rs. The set `visited` holds what `to_remove` holds, and is read
-- from it; the vector that is popped from its end is a list that is taken from its head. `before` orders displayed
-- keys, `prior` contributions and `above` displayed paths.
pub mod Edges
pub mod Emptying
pub mod Pending
pub mod Looping
pub mod Closing
pub mod Listing
pub mod Succeeding
use kanbei.Base.{
  ℕ, zero, suc, ◌+◌, Bool, true, false, ◌&&◌, ◌||◌, not, Option, none, some, List, [], ◌∷◌, ◌++◌,
  map, if◌then◌else◌, length, is_empty,
}
use kanbei.Base.Sorting.{sort_by}
use kanbei.Base.Ranking.{filter}
use kanbei.Services.Types.{
  ScopePath, ServiceKey, ServiceDependency, ServiceProvider, ServiceResult, same_path, same_key,
}
use kanbei.Services.Registry.Ops.{ServiceRegistry, dependents_of, remove, snapshot}
use kanbei.Scopes.Contrib.{
  Contribution, ContributionKind, command, tool, service, keymap, theme, projection_stage, ui_mount,
  guard, settings, hook, ScopeError, dependents_remain, invalid_input, removal_cycle, service_error,
}
use kanbei.Scopes.State.{ContributionRegistry}

pub record RemovedSet : Type 0 where
  pub contributions : List Contribution
  pub cascaded_scopes : List ScopePath

-- `panicked` is the `expect` of a service that is not published; `unfinished` wants fuel.
pub data RemovalEnd : Type 0 where
  removed_set : RemovedSet → RemovalEnd
  refused : ScopeError → RemovalEnd
  panicked : RemovalEnd
  unfinished : RemovalEnd

abbrev pub Service : Type 0
Service = ServiceKey × ServiceProvider × List ServiceDependency

unfoldable pub has_key : ServiceKey → List ServiceKey → Bool
unfolding same_key
has_key k [] = false
has_key k (j ∷ js) = same_key j k || has_key k js

unfoldable pub find_service :
    ServiceKey → List Service → Option (ServiceProvider × List ServiceDependency)
unfolding same_key
find_service k [] = none
find_service k ((j, p, ds) ∷ all) = if same_key j k then some (p, ds) else find_service k all

-- The keys with the last one on top.
unfoldable pub reversed : List ServiceKey → List ServiceKey → List ServiceKey
reversed [] done = done
reversed (k ∷ ks) done = reversed ks (k ∷ done)

-- The keys that the dependents add to `to_remove` and to the queue.
unfoldable pub discover :
    List ServiceDependency → List ServiceKey → List ServiceKey → List ServiceKey × List ServiceKey
unfolding has_key
discover [] to_remove queue = (to_remove, queue)
discover (d ∷ ds) to_remove queue =
    if has_key d.key to_remove
    then discover ds to_remove queue
    else discover ds (to_remove ++ d.key ∷ []) (d.key ∷ queue)

-- The first pending key that passes, and the others.
unfoldable pub take_first :
    (ServiceKey → Bool) → List ServiceKey → Option (ServiceKey × List ServiceKey)
take_first ready [] = none
take_first ready (k ∷ ks) =
    if ready k
    then some (k, ks)
    else (elim (take_first ready ks) [ none ↦ none | some (j, rest) ↦ some (j, k ∷ rest) ])

unfoldable pub all_removed : List ServiceDependency → List ServiceKey → Bool
unfolding has_key
all_removed [] removed = true
all_removed (d ∷ ds) removed = has_key d.key removed && all_removed ds removed

pub record Removing : Type 0 where
  pub services : ServiceRegistry
  pub removed_keys : List ServiceKey
  pub contributions : List Contribution
  pub cascaded : List ScopePath

unfoldable pub dedup : List ScopePath → List ScopePath
unfolding same_path
dedup [] = []
dedup (p ∷ ps) = p ∷ after p ps
  where
    after : ScopePath → List ScopePath → List ScopePath
    after q [] = []
    after q (s ∷ ss) = if same_path q s then after q ss else s ∷ after s ss

-- `retain`, with what it takes out as contributions.
unfoldable pub of_scope {κ ℓ} :
    {K : Type κ} {V : Type ℓ}
    → (K → ScopePath)
    → (V → ContributionKind)
    → ScopePath
    → List (K × V)
    → List Contribution
unfolding same_path
of_scope scope_of kind scope [] = []
of_scope scope_of kind scope ((k, v) ∷ m) =
    let rest = of_scope scope_of kind scope m in
    if same_path (scope_of k) scope
    then record { scope = scope_of k; kind = kind v } ∷ rest
    else rest

unfoldable pub others {κ ℓ} :
    {K : Type κ} {V : Type ℓ} → (K → ScopePath) → ScopePath → List (K × V) → List (K × V)
unfolding same_path
others scope_of scope [] = []
others scope_of scope ((k, v) ∷ m) =
    let rest = others scope_of scope m in
    if same_path (scope_of k) scope then rest else (k, v) ∷ rest

unfoldable pub extras : ContributionRegistry → ScopePath → List Contribution
unfolding of_scope
extras r scope =
    of_scope (λ k. k.scope) command scope r.commands
    ++ of_scope (λ k. k.scope) tool scope r.tools
    ++ of_scope (λ k. k.scope) theme scope r.themes
    ++ of_scope (λ k. k.scope) projection_stage scope r.stages
    ++ of_scope (λ k. k.scope) ui_mount scope r.ui
    ++ of_scope (λ k. k.scope) guard scope r.guards
    ++ of_scope (λ k. k.scope) hook scope r.hooks
    ++ of_scope (λ k. k) keymap scope r.keymaps
    ++ of_scope (λ k. k) settings scope r.settings

unfoldable pub without_scope :
    ContributionRegistry → ScopePath → ServiceRegistry → ContributionRegistry
unfolding others
without_scope r scope services = record {
  commands = others (λ k. k.scope) scope r.commands;
  tools = others (λ k. k.scope) scope r.tools;
  keymaps = others (λ k. k) scope r.keymaps;
  themes = others (λ k. k.scope) scope r.themes;
  stages = others (λ k. k.scope) scope r.stages;
  ui = others (λ k. k.scope) scope r.ui;
  guards = others (λ k. k.scope) scope r.guards;
  hooks = others (λ k. k.scope) scope r.hooks;
  settings = others (λ k. k) scope r.settings;
  services = services;
}

module _ (before : ServiceKey → ServiceKey → Bool) (prior : Contribution → Contribution → Bool)
    (above : ScopePath → ScopePath → Bool) where
  -- `published`, its keys alone.
  unfoldable pub scope_keys : ServiceRegistry → ScopePath → List ServiceKey
  unfolding snapshot filter same_path
  scope_keys services scope =
      map (λ e. e.0) (filter (λ e. same_path e.0.scope scope) (snapshot before services))

  unfoldable pub dependents_of_all : ServiceRegistry → List ServiceKey → List ServiceDependency
  unfolding dependents_of
  dependents_of_all services [] = []
  dependents_of_all services (k ∷ ks) =
      dependents_of before services k ++ dependents_of_all services ks

  unfoldable pub closure :
      ServiceRegistry → ℕ → List ServiceKey → List ServiceKey → Option (List ServiceKey)
  unfolding discover dependents_of
  closure services fuel to_remove [] = some to_remove
  closure services zero to_remove (k ∷ queue) = none
  closure services (suc fuel) to_remove (k ∷ queue) =
      let found = discover (dependents_of before services k) to_remove queue in
      closure services fuel found.0 found.1

  -- One turn of the loop over `pending`, for the key that it takes.
  unfoldable pub remove_key :
      ScopePath
      → ServiceKey
      → ServiceProvider
      → List ServiceDependency
      → Removing
      → ServiceRegistry × ServiceResult {0} Unit
      → Removing × Option ScopeError
  unfolding same_path
  remove_key scope k provider deps st (services, ServiceResult.err e) =
      (record st { services = services }, some (service_error e))
  remove_key scope k provider deps st (services, ServiceResult.ok u) = (
    record {
      services = services;
      removed_keys = k ∷ st.removed_keys;
      contributions =
          st.contributions
          ++ record {
            scope = k.scope;
            kind = service (record { key = k; provider = provider; deps = deps });
          }
            ∷ [];
      cascaded = if same_path k.scope scope then st.cascaded else st.cascaded ++ k.scope ∷ [];
    },
    none,
  )

  unfoldable pub after_removal :
      (Removing → Removing × Option RemovalEnd)
      → Removing × Option ScopeError
      → Removing × Option RemovalEnd
  after_removal go (st, some e) = (st, some (refused e))
  after_removal go (st, none) = go st

  unfoldable pub remove_pending :
      ScopePath → List Service → ℕ → List ServiceKey → Removing → Removing × Option RemovalEnd
  unfolding take_first all_removed dependents_of find_service remove remove_key after_removal
  remove_pending scope all fuel [] st = (st, none)
  remove_pending scope all zero (p ∷ pending) st = (st, some unfinished)
  remove_pending scope all (suc fuel) (p ∷ pending) st =
      elim (take_first (λ k. all_removed (dependents_of before st.services k) st.removed_keys)
        (p ∷ pending)) [
          | none ↦ (st, some (refused (invalid_input (removal_cycle scope))))
          | some (k, rest) ↦ elim (find_service k all) [
            | none ↦ (st, some panicked)
            | some (provider, deps) ↦ after_removal (remove_pending scope all fuel rest) (
                remove_key scope k provider deps st
                  (remove before k provider.module_id st.services))
          ]
        ]

  unfoldable pub finish_removal :
      ContributionRegistry
      → ScopePath
      → Removing × Option RemovalEnd
      → ContributionRegistry × RemovalEnd
  unfolding without_scope extras dedup sort_by
  finish_removal r scope (st, some end) = (record r { services = st.services }, end)
  finish_removal r scope (st, none) = (
    without_scope r scope st.services,
    removed_set (record {
      contributions = sort_by prior (st.contributions ++ extras r scope);
      cascaded_scopes = dedup (sort_by above st.cascaded);
    }),
  )

  unfoldable pub remove_closed :
      ContributionRegistry
      → ScopePath
      → Option (List ServiceKey)
      → ContributionRegistry × RemovalEnd
  unfolding remove_pending finish_removal snapshot
  remove_closed r scope none = (r, unfinished)
  remove_closed r scope (some to_remove) = finish_removal r scope (
      remove_pending scope (snapshot before r.services) (length to_remove) to_remove
        (record { services = r.services; removed_keys = []; contributions = []; cascaded = [] }))

  -- The fuel counts the keys that can be pushed.
  unfoldable pub remove_scope :
      ContributionRegistry → ScopePath → Bool → ContributionRegistry × RemovalEnd
  unfolding scope_keys dependents_of_all filter same_path closure reversed remove_closed
  remove_scope r scope force =
      let published = scope_keys r.services scope in
      let outside =
        filter (λ d. not (same_path d.key.scope scope)) (dependents_of_all r.services published) in
      if not (is_empty outside) && not force
      then (r, refused (dependents_remain scope outside))
      else remove_closed r scope (
          closure r.services (length published + length r.services.deps) published
            (reversed published []))
