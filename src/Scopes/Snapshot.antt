-- ===== src/Scopes/Snapshot.antt =====
-- `snapshot` of crates/kanbei-scopes/src/registry.rs. `before` orders displayed keys and `prior` contributions by
-- `snapshot_sort_key`, whose strings and JSON are not modelled.
use kanbei.Base.{Bool, List, ◌++◌, map}
use kanbei.Base.Sorting.{sort_by}
use kanbei.Services.Types.{ServiceKey}
use kanbei.Services.Registry.Ops.{snapshot}
use kanbei.Scopes.Contrib.{
  Contribution, command, tool, service, keymap, theme, projection_stage, ui_mount, guard, settings,
  hook,
}
use kanbei.Scopes.State.{ContributionRegistry}

module _ (before : ServiceKey → ServiceKey → Bool)
    (prior : Contribution → Contribution → Bool) where
  unfoldable pub entries : ContributionRegistry → List Contribution
  unfolding snapshot
  entries r =
      map (λ e. record { scope = e.0.scope; kind = command e.1 }) r.commands
      ++ map (λ e. record { scope = e.0.scope; kind = tool e.1 }) r.tools
      ++ map (λ e. record { scope = e.0.scope; kind = theme e.1 }) r.themes
      ++ map (λ e. record { scope = e.0.scope; kind = projection_stage e.1 }) r.stages
      ++ map (λ e. record { scope = e.0.scope; kind = ui_mount e.1 }) r.ui
      ++ map (λ e. record { scope = e.0.scope; kind = guard e.1 }) r.guards
      ++ map (λ e. record { scope = e.0.scope; kind = hook e.1 }) r.hooks
      ++ map (λ e. record { scope = e.0; kind = keymap e.1 }) r.keymaps
      ++ map (λ e. record { scope = e.0; kind = settings e.1 }) r.settings
      ++ map
          (λ e. record {
            scope = e.0.scope;
            kind = service (record { key = e.0; provider = e.1; deps = e.2 });
          })
          (snapshot before r.services)

  unfoldable pub registry_snapshot : ContributionRegistry → List Contribution
  unfolding entries sort_by
  registry_snapshot r = sort_by prior (entries r)
