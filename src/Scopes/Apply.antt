-- ===== src/Scopes/Apply.antt =====
-- `apply_planned` of crates/kanbei-scopes/src/registry.rs. The lock of the shared services is not modelled.
use kanbei.Base.{ℕ, Bool, false, ◌||◌, Option, none, some, List, [], ◌∷◌, ◌++◌, if◌then◌else◌}
use kanbei.Base.Table.{find, store}
use kanbei.Services.Types.{ScopePath, ServiceKey, ServiceResult, same_path, same_key}
use kanbei.Services.Registry.Ops.{ServiceRegistry, publish_with_deps, remove_forced}
use kanbei.Scopes.Contrib.{
  ThemeContribution, UiMountContribution, SettingsContribution, Contribution, ContributionKind,
  command, tool, service, keymap, theme, projection_stage, ui_mount, guard, settings, hook,
  overlay_not_object, foreign_scope, invalid_contribution, service_error, ScopeResult, ok, err,
  ◌>>◌, ◌>>=◌,
}
use kanbei.Scopes.State.{
  ContributionRegistry, same_entry, same_stage, same_hook, is_object, merge_overlay,
}
use kanbei.Scopes.Settings.{merge_settings, no_settings}
use kanbei.Scopes.Displaced.{OverridePlan, entry, stage, remove_displaced}

-- `removed_service_keys().contains(key)`.
unfoldable pub names_service : ContributionKind → ServiceKey → Bool
unfolding same_key
names_service (service s) key = same_key s.key key
names_service (command d) key = false
names_service (tool d) key = false
names_service (keymap d) key = false
names_service (theme d) key = false
names_service (projection_stage d) key = false
names_service (ui_mount d) key = false
names_service (guard d) key = false
names_service (settings d) key = false
names_service (hook d) key = false

unfoldable pub displaces : List Contribution → ServiceKey → Bool
unfolding names_service
displaces [] key = false
displaces (c ∷ cs) key = names_service c.kind key || displaces cs key

-- The theme under a name, with an overlay laid over it.
unfoldable pub merge_theme : ThemeContribution → Option ThemeContribution → ThemeContribution
unfolding merge_overlay
merge_theme t none = t
merge_theme t (some held) = record held { overlay = merge_overlay held.overlay t.overlay }

unfoldable pub main_slot : List ℕ
main_slot = 109 ∷ 97 ∷ 105 ∷ 110 ∷ []

unfoldable pub with_slot : UiMountContribution → UiMountContribution
unfolding main_slot
with_slot u = record u { slot = some (elim u.slot [ none ↦ main_slot | some slot ↦ slot ]) }

unfoldable pub settled : SettingsContribution → Option SettingsContribution → SettingsContribution
unfolding merge_settings no_settings
settled s none = merge_settings no_settings s
settled s (some held) = merge_settings held s

module _ (before : ServiceKey → ServiceKey → Bool) where
  unfoldable pub publish_service :
      ContributionRegistry
      → ServiceRegistry × ServiceResult {0} Unit
      → ScopeResult ContributionRegistry
  publish_service r (services, ServiceResult.ok u) = ok (record r { services = services })
  publish_service r (services, ServiceResult.err e) = err (service_error e)

  -- One turn of the loop over the staged contributions.
  unfoldable pub apply_one :
      List Contribution
      → ContributionRegistry
      → ScopePath
      → ContributionKind
      → ScopeResult ContributionRegistry
  unfolding find store same_entry same_stage same_hook same_path displaces merge_theme with_slot
      settled publish_with_deps remove_forced publish_service is_object
  apply_one removed r scope (service s) =
      let services =
        if displaces removed s.key then (remove_forced s.key r.services).0 else r.services in
      publish_service r (publish_with_deps before s.key s.provider s.deps services)
  apply_one removed r scope (command c) =
      ok (record r { commands = store same_entry (entry scope c.name) c r.commands })
  apply_one removed r scope (tool t) =
      ok (record r { tools = store same_entry (entry scope t.name) t r.tools })
  apply_one removed r scope (keymap km) = ok (record r { keymaps = r.keymaps ++ (scope, km) ∷ [] })
  apply_one removed r scope (theme t) =
      if is_object t.overlay
      then ok (record r {
        themes =
            store same_entry (entry scope t.name)
              (merge_theme t (find same_entry (entry scope t.name) r.themes)) r.themes;
      })
      else err (invalid_contribution scope overlay_not_object)
  apply_one removed r scope (projection_stage p) =
      ok (record r { stages = store same_stage (stage scope p.slot p.ordering) p r.stages })
  apply_one removed r scope (ui_mount u) =
      ok (record r { ui = store same_entry (entry scope u.name) (with_slot u) r.ui })
  apply_one removed r scope (guard g) =
      ok (record r { guards = store same_entry (entry scope g.name) g r.guards })
  apply_one removed r scope (hook h) = ok (record r {
    hooks = store same_hook (record { scope = scope; hook = h.hook; name = h.name }) h r.hooks;
  })
  apply_one removed r scope (settings s) = ok (record r {
    settings = store same_path scope (settled s (find same_path scope r.settings)) r.settings;
  })

  unfoldable pub apply_all :
      List Contribution
      → ContributionRegistry
      → List Contribution
      → ScopeResult ContributionRegistry
  unfolding apply_one
  apply_all removed r [] = ok r
  apply_all removed r (c ∷ cs) = apply_one removed r c.scope c.kind >>= λ s. apply_all removed s cs

  unfoldable pub check_scope : ScopePath → List Contribution → ScopeResult {0} Unit
  unfolding same_path
  check_scope scope [] = ok tt
  check_scope scope (c ∷ cs) =
      let rest = check_scope scope cs in
      if same_path c.scope scope
      then rest
      else err (invalid_contribution c.scope (foreign_scope scope))

  -- The state that is swapped in.
  unfoldable pub next_state :
      ContributionRegistry
      → ScopePath
      → List Contribution
      → OverridePlan
      → ScopeResult ContributionRegistry
  unfolding check_scope apply_all remove_displaced
  next_state r scope staged plan =
      check_scope scope staged >> apply_all plan.removed (remove_displaced r plan.removed) staged

  unfoldable pub apply_planned :
      ContributionRegistry
      → ScopePath
      → List Contribution
      → OverridePlan
      → ContributionRegistry × ScopeResult {0} Unit
  unfolding next_state
  apply_planned r scope staged plan = elim (next_state r scope staged plan) [
    | ok next ↦ (next, ok tt)
    | err e ↦ (r, err e)
  ]
