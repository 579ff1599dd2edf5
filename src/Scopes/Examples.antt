-- ===== src/Scopes/Examples.antt =====
-- Publications, lookups and disposals of crates/kanbei-scopes/src at concrete contributions.
use kanbei.Base.{
  ℕ, any, ◌≡◌, refl, Option, none, some, List, [], ◌∷◌, ltb, Bool, true, false, All, length,
}
use kanbei.Base.Sorting.{sort_by}
use kanbei.Base.Table.{find}
use kanbei.Services.Types.{ServiceProvider, ScopePath, ServiceKey, same_path}
use kanbei.Services.KeyMap.{get}
use kanbei.Services.Registry.Ops.{ServiceRegistry, empty_registry}
use kanbei.Services.Registry.Runs
use kanbei.Services.Registry.Runs.{Request, publishing, publishing_with_deps, run-RegistryHolds}
use kanbei.Services.Registry.Holding.{empty_registry-RegistryHolds}
use kanbei.Scopes.Removal.{RemovedSet, refused, removed_set, remove_scope, without_scope}
use kanbei.Scopes.Removal.Succeeding.{remove_scope-forced}
use kanbei.Scopes.Contrib.{
  dependents_remain, Contribution, GuardContribution, Keybinding, KeyContext, ContextPredicate,
  KeymapOrigin, SettingsContribution, command, tool, service, guard, settings, guard_tag, named,
  ScopeError, stale_epoch, conflict, ok, err, object, boolean, field, no_fields, builtin,
  user_config,
}
use kanbei.Scopes.State.{ContributionRegistry, EntryKey, new_registry, same_entry}
use kanbei.Scopes.Displaced.{validate_planned}
use kanbei.Scopes.Apply.{apply_planned}
use kanbei.Scopes.Composition.{Composition, StagedSet, no_plan, publish_planned}
use kanbei.Scopes.Publication.{publish_planned-once}
use kanbei.Scopes.Standing.{Stands, apply_planned-Stands}
use kanbei.Scopes.Guards.{apply_planned-monotonic}
use kanbei.Scopes.Keymap.{live, outranked, keymap_winner, keymap_winner-outranks}
use kanbei.Scopes.Replace.{recompose_overlays}
use kanbei.Scopes.Layers.{recompose_overlays-apply_planned}
use kanbei.Scopes.Tree.{Scope, ScopeTree, disposed, run, new_root, create_child, dispose_scope}
use kanbei.Scopes.Disposed.{Disposed}
use kanbei.Scopes.Trees.{creating, serve_all}

abbrev by_name : ServiceKey → ServiceKey → Bool
by_name a b = ltb a.name b.name

abbrev unsorted : Contribution → Contribution → Bool
unsorted a b = false

abbrev here : ScopePath
here = 4 ∷ []

abbrev entry : ℕ → EntryKey
entry name = record { scope = here; name = name }

abbrev strict : GuardContribution
strict = record { name = 2; predicate = 6; monotonic = true }

abbrev binding : ContextPredicate → KeymapOrigin → ℕ → Keybinding
binding context origin action = record {
  key = 7;
  context = context;
  action = action;
  origin = origin;
  owner = none;
}

abbrev of_user : Keybinding
of_user = binding ContextPredicate.always user_config 12

abbrev base : ContributionRegistry
base = record (new_registry empty_registry) {
  commands = (entry 1, record { name = 1; handler = 5 }) ∷ [];
  guards = (entry 2, strict) ∷ [];
  keymaps =
      (here, binding ContextPredicate.always builtin 11)
      ∷ (here, of_user)
      ∷ (here, binding ContextPredicate.modal builtin 13)
      ∷ [];
}

abbrev model_setting : SettingsContribution
model_setting = record {
  provider =
      some (record { base_url = none; model = some 3; protocol = none; key = none; fake = none });
  approval = none;
}

abbrev staged : List Contribution
staged =
    record { scope = here; kind = command (record { name = 3; handler = 8 }) }
    ∷ record { scope = here; kind = guard (record { name = 2; predicate = 9; monotonic = true }) }
    ∷ record {
      scope = here;
      kind =
          tool (record {
            name = 1;
            manifest = object (field 1 (boolean true) no_fields);
            handler = 8;
          });
    }
    ∷ record { scope = here; kind = settings model_setting }
    ∷ record {
      scope = here;
      kind = service (record {
        key = record { scope = here; name = 1 };
        provider = record {
          module_id = 10;
          generation = 1;
          contract = record { name = 1; version = 1 };
        };
        deps = [];
      });
    }
    ∷ []

staged_applies : (apply_planned by_name base here staged no_plan).1 ≡ ok tt
unfolding apply_planned sort_by new_registry empty_registry
staged_applies = refl

loose_guard_refused :
    validate_planned 1 base
      (record { scope = here; kind = guard (record { name = 2; predicate = 9; monotonic = false }) }
        ∷ [])
      no_plan
    ≡ err (conflict guard_tag here 2 (named 6) (named 9))
unfolding validate_planned new_registry empty_registry
loose_guard_refused = refl

apply_planned-Stands_example : Stands base (apply_planned by_name base here staged no_plan).0
unfolding validate_planned apply_planned sort_by new_registry empty_registry
apply_planned-Stands_example = apply_planned-Stands 1 by_name base here staged refl refl

apply_planned-monotonic_example :
    (h : GuardContribution) × (find same_entry
        (entry 2)
        (apply_planned by_name base here staged no_plan).0.guards
      ≡ some h)
    × (h.monotonic ≡ true)
unfolding validate_planned apply_planned sort_by find new_registry empty_registry
apply_planned-monotonic_example =
    apply_planned-monotonic 1 by_name base here staged refl refl (entry 2) strict refl refl

abbrev counted : List Contribution → ℕ
counted cs = length cs

abbrev composed : Composition
composed = record { epoch = 6; digest = 0; contributions = [] }

abbrev set_at : ℕ → StagedSet
set_at epoch = record { against_epoch = epoch; contributions = staged }

publish_planned-once_example :
    let after = (publish_planned 1 by_name unsorted counted composed base (set_at 6) no_plan).0 in
    publish_planned 1 by_name unsorted counted after.0 after.1 (set_at 6) no_plan
    ≡ (after, err (stale_epoch 6 after.0.epoch))
unfolding publish_planned sort_by new_registry empty_registry
publish_planned-once_example =
    publish_planned-once 1 by_name unsorted counted composed base (set_at 6) (set_at 6) no_plan
      no_plan refl refl

abbrev plain : KeyContext
plain = record { modal = false; overlay = false }

keymap_winner-outranks_example :
    (live 7 plain of_user ≡ true)
    × All (λ e. live 7 plain e.1 ≡ true → outranked e.1 of_user ≡ true) base.keymaps
unfolding keymap_winner new_registry
keymap_winner-outranks_example = keymap_winner-outranks base 7 plain here of_user refl

recompose_overlays-apply_planned_example :
    let after = (apply_planned by_name base here staged no_plan).0 in
    find same_path here (recompose_overlays after here staged).settings
    ≡ find same_path here after.settings
unfolding apply_planned sort_by find new_registry empty_registry
recompose_overlays-apply_planned_example =
    recompose_overlays-apply_planned by_name here base staged refl refl

-- Every removal goes through.
abbrev remains : ScopePath → Bool → ContributionRegistry → ContributionRegistry × Option ScopeError
remains path force r = (r, none)

disposed_root :
    (dispose_scope remains 2 true [] ((create_child new_root [] 5 (run 1)).0, base))
    ≡ (([], base), disposed)
unfolding dispose_scope create_child new_root
disposed_root = refl

-- A removal that goes through, and is noted.
abbrev noting : ScopePath → Bool → List ScopePath → List ScopePath × Option ScopeError
noting path force r = (path ∷ r, none)

abbrev Noted : ScopePath → List ScopePath → Type 0
Noted path r = any (same_path path) r ≡ true

-- The root and one scope below it.
abbrev two_scopes : ScopeTree × List ScopePath
two_scopes = serve_all noting (new_root, []) (creating [] 5 (run 1) ∷ [])

abbrev top_scope : Scope
top_scope = record { path = []; owner = run 0; parent = none; children = (5 ∷ []) ∷ [] }

abbrev provided : ℕ → ServiceProvider
provided n = record { module_id = 10; generation = 1; contract = record { name = n; version = 1 } }

abbrev below : ScopePath
below = 4 ∷ 5 ∷ []

-- A service of the scope, and one below it that depends on it.
abbrev publications : List Request
publications =
    publishing (record { scope = here; name = 1 }) (provided 1)
    ∷ publishing_with_deps (record { scope = below; name = 2 }) (provided 2)
        (record { key = record { scope = here; name = 1 }; required_version = 1 } ∷ [])
    ∷ []

abbrev populated : ContributionRegistry
populated = record base { services = Runs.run by_name empty_registry publications }

abbrev nearer : ScopePath → ScopePath → Bool
nearer a b = ltb (length a) (length b)

cascaded :
    (e : List Contribution) × ((remove_scope by_name unsorted nearer populated here true).1
      ≡ removed_set (record { contributions = e; cascaded_scopes = below ∷ [] }))
unfolding remove_scope sort_by new_registry empty_registry Runs.run
cascaded = (_, refl)

unforced :
    (remove_scope by_name unsorted nearer populated here false).1
    ≡ refused (
        dependents_remain here
          (record { key = record { scope = below; name = 2 }; required_version = 1 } ∷ []))
unfolding remove_scope sort_by new_registry empty_registry Runs.run
unforced = refl

remove_scope-forced_example :
    (left : ServiceRegistry) × (set : RemovedSet) × (remove_scope by_name unsorted nearer populated
        here true
      ≡ (without_scope populated here left, removed_set set))
    × ((k : ServiceKey) → k.scope ≡ here → get k left.holders ≡ none)
remove_scope-forced_example =
    remove_scope-forced by_name unsorted nearer populated here
      (run-RegistryHolds by_name empty_registry publications empty_registry-RegistryHolds)
