-- ===== src/Scopes/Displaced.antt =====
-- The removals of crates/kanbei-scopes/src/registry.rs: of displaced contributions, in `apply_planned` and
-- `validate_planned`, and `remove_contributions`. A clone that is dropped is the registry as it was.
use kanbei.Base.{ℕ, Bool, true, false, ◌&&◌, not, ◌==◌, List, [], ◌∷◌, if◌then◌else◌}
use kanbei.Base.Table.{drop}
use kanbei.Services.Types.{ScopePath, same_path}
use kanbei.Services.Registry.Ops.{remove_forced}
use kanbei.Scopes.Contrib.{
  ContextPredicate, KeymapOrigin, Contribution, ContributionKind, command, tool, service, keymap,
  theme, projection_stage, ui_mount, guard, settings, hook, service_removal, invalid_contribution,
  ScopeResult, ok, err, ◌>>=◌, builtin, plugin, user_config,
}
use kanbei.Scopes.State.{
  ContributionRegistry, EntryKey, StageKey, same_entry, same_stage, same_hook,
}
use kanbei.Scopes.Validate.{validate_inner}

pub record OverridePlan : Type 0 where
  pub removed : List Contribution

unfoldable pub same_context : ContextPredicate → ContextPredicate → Bool
same_context ContextPredicate.always ContextPredicate.always = true
same_context ContextPredicate.always ContextPredicate.modal = false
same_context ContextPredicate.always ContextPredicate.overlay = false
same_context ContextPredicate.modal ContextPredicate.always = false
same_context ContextPredicate.modal ContextPredicate.modal = true
same_context ContextPredicate.modal ContextPredicate.overlay = false
same_context ContextPredicate.overlay ContextPredicate.always = false
same_context ContextPredicate.overlay ContextPredicate.modal = false
same_context ContextPredicate.overlay ContextPredicate.overlay = true

unfoldable pub same_origin : KeymapOrigin → KeymapOrigin → Bool
same_origin builtin builtin = true
same_origin builtin plugin = false
same_origin builtin user_config = false
same_origin plugin builtin = false
same_origin plugin plugin = true
same_origin plugin user_config = false
same_origin user_config builtin = false
same_origin user_config plugin = false
same_origin user_config user_config = true

-- `keymaps.retain`.
unfoldable pub retain {ℓ} : {A : Type ℓ} → (A → Bool) → List A → List A
retain keep [] = []
retain keep (a ∷ xs) = let rest = retain keep xs in if keep a then a ∷ rest else rest

abbrev pub entry : ScopePath → ℕ → EntryKey
entry scope name = record { scope = scope; name = name }

abbrev pub stage : ScopePath → ℕ → ℕ → StageKey
stage scope slot ordering = record { scope = scope; slot = slot; ordering = ordering }

-- The removal of a displaced contribution; services wait for the staged ones, and settings stay.
unfoldable pub remove_entry :
    ContributionRegistry → ScopePath → ContributionKind → ContributionRegistry
unfolding drop same_entry same_stage same_hook same_path same_context same_origin retain
remove_entry r scope (command c) = record r {
  commands = drop same_entry (entry scope c.name) r.commands;
}
remove_entry r scope (tool t) = record r { tools = drop same_entry (entry scope t.name) r.tools }
remove_entry r scope (theme t) = record r { themes = drop same_entry (entry scope t.name) r.themes }
remove_entry r scope (projection_stage p) = record r {
  stages = drop same_stage (stage scope p.slot p.ordering) r.stages;
}
remove_entry r scope (ui_mount u) = record r { ui = drop same_entry (entry scope u.name) r.ui }
remove_entry r scope (guard g) = record r { guards = drop same_entry (entry scope g.name) r.guards }
remove_entry r scope (hook h) = record r {
  hooks = drop same_hook (record { scope = scope; hook = h.hook; name = h.name }) r.hooks;
}
remove_entry r scope (keymap km) = record r {
  keymaps =
      retain
        (λ e. not (
          same_path e.0 scope
          && (e.1.key == km.key)
          && same_context e.1.context km.context
          && same_origin e.1.origin km.origin))
        r.keymaps;
}
remove_entry r scope (settings s) = r
remove_entry r scope (service s) = r

unfoldable pub remove_displaced : ContributionRegistry → List Contribution → ContributionRegistry
unfolding remove_entry
remove_displaced r [] = r
remove_displaced r (c ∷ cs) = remove_displaced (remove_entry r c.scope c.kind) cs

-- `remove_override_targets`: the origin of a key binding is not read, and services go at once.
unfoldable pub remove_target :
    ContributionRegistry → ScopePath → ContributionKind → ContributionRegistry
unfolding remove_entry remove_forced same_path same_context retain
remove_target r scope (service s) = record r { services = (remove_forced s.key r.services).0 }
remove_target r scope (keymap km) = record r {
  keymaps =
      retain
        (λ e.
          not (same_path e.0 scope && (e.1.key == km.key) && same_context e.1.context km.context))
        r.keymaps;
}
remove_target r scope (command c) = remove_entry r scope (command c)
remove_target r scope (tool t) = remove_entry r scope (tool t)
remove_target r scope (theme t) = remove_entry r scope (theme t)
remove_target r scope (projection_stage p) = remove_entry r scope (projection_stage p)
remove_target r scope (ui_mount u) = remove_entry r scope (ui_mount u)
remove_target r scope (guard g) = remove_entry r scope (guard g)
remove_target r scope (hook h) = remove_entry r scope (hook h)
remove_target r scope (settings s) = r

unfoldable pub remove_override_targets :
    ContributionRegistry → List Contribution → ContributionRegistry
unfolding remove_target
remove_override_targets r [] = r
remove_override_targets r (c ∷ cs) = remove_override_targets (remove_target r c.scope c.kind) cs

unfoldable pub validate_planned :
    ℕ → ContributionRegistry → List Contribution → OverridePlan → ScopeResult {0} Unit
unfolding validate_inner remove_override_targets
validate_planned replay_relevant r staged plan =
    validate_inner replay_relevant (remove_override_targets r plan.removed) staged

-- `remove_contributions`.
unfoldable pub remove_contribution :
    ContributionRegistry → ScopePath → ContributionKind → ScopeResult ContributionRegistry
unfolding remove_entry drop same_path
remove_contribution r scope (service s) = err (invalid_contribution scope service_removal)
remove_contribution r scope (settings s) =
    ok (record r { settings = drop same_path scope r.settings })
remove_contribution r scope (command c) = ok (remove_entry r scope (command c))
remove_contribution r scope (tool t) = ok (remove_entry r scope (tool t))
remove_contribution r scope (theme t) = ok (remove_entry r scope (theme t))
remove_contribution r scope (projection_stage p) = ok (remove_entry r scope (projection_stage p))
remove_contribution r scope (ui_mount u) = ok (remove_entry r scope (ui_mount u))
remove_contribution r scope (guard g) = ok (remove_entry r scope (guard g))
remove_contribution r scope (hook h) = ok (remove_entry r scope (hook h))
remove_contribution r scope (keymap km) = ok (remove_entry r scope (keymap km))

unfoldable pub remove_contributions :
    ContributionRegistry → List Contribution → ContributionRegistry × ScopeResult {0} Unit
unfolding remove_contribution
remove_contributions r removals = elim (removed r removals) [
  | ok next ↦ (next, ok tt)
  | err e ↦ (r, err e)
]
  where
    removed : ContributionRegistry → List Contribution → ScopeResult ContributionRegistry
    removed s [] = ok s
    removed s (c ∷ cs) = remove_contribution s c.scope c.kind >>= λ n. removed n cs
