-- ===== src/Scopes/Replace.antt =====
-- The explicit replacements of crates/kanbei-scopes/src/registry.rs, and `recompose_overlays`.
use kanbei.Base.{ℕ, not, ◌==◌, Option, none, some, List, [], ◌∷◌, if◌then◌else◌}
use kanbei.Base.Ranking.{filter}
use kanbei.Base.Table.{find, store, drop}
use kanbei.Services.Types.{ScopePath, same_path}
use kanbei.Scopes.Contrib.{
  CommandContribution, ToolContribution, UiMountContribution, ProjectionStageContribution,
  Contribution, ContributionKind, command, tool, service, keymap, theme, projection_stage, ui_mount,
  guard, settings, hook, KindTag, command_tag, tool_tag, ui_tag, stage_tag, named, conflict,
  invalid_input, renamed, unregistered, ScopeResult, ok, err, ◌>>◌,
}
use kanbei.Scopes.State.{
  ContributionRegistry, EntryKey, StageKey, same_entry, same_stage, is_object,
}
use kanbei.Scopes.Validate.{validate_ui_slot}
use kanbei.Scopes.Apply.{with_slot, merge_theme, settled}

-- The tests that the replacements share: the name, the registration, and its holder.
unfoldable pub check_replaced {ℓ} :
    {V : Type ℓ} → KindTag → ScopePath → ℕ → ℕ → (V → ℕ) → ℕ → ℕ → Option V → ScopeResult {0} Unit
check_replaced tag scope name new_name holder_of challenger previous none =
    if not (new_name == name)
    then err (invalid_input (renamed tag name new_name))
    else err (invalid_input (unregistered tag name))
check_replaced tag scope name new_name holder_of challenger previous (some existing) =
    if not (new_name == name)
    then err (invalid_input (renamed tag name new_name))
    else if not (holder_of existing == previous)
    then err (conflict tag scope name (named (holder_of existing)) (named challenger))
    else ok tt

-- The state that is swapped in, or the error.
unfoldable pub replaced_with :
    ContributionRegistry
    → ContributionRegistry
    → ScopeResult {0} Unit
    → ContributionRegistry × ScopeResult {0} Unit
replaced_with r next (ok u) = (next, ok tt)
replaced_with r next (err e) = (r, err e)

unfoldable pub replace_command :
    ContributionRegistry
    → ScopePath
    → ℕ
    → CommandContribution
    → ℕ
    → ContributionRegistry × ScopeResult {0} Unit
unfolding check_replaced replaced_with find store same_entry
replace_command r scope name new previous =
    let key : EntryKey = record { scope = scope; name = name } in
    replaced_with r (record r { commands = store same_entry key new r.commands })
      (check_replaced command_tag scope name new.name (λ e. e.handler) new.handler previous
        (find same_entry key r.commands))

unfoldable pub replace_tool :
    ContributionRegistry
    → ScopePath
    → ℕ
    → ToolContribution
    → ℕ
    → ContributionRegistry × ScopeResult {0} Unit
unfolding check_replaced replaced_with find store same_entry
replace_tool r scope name new previous =
    let key : EntryKey = record { scope = scope; name = name } in
    replaced_with r (record r { tools = store same_entry key new r.tools })
      (check_replaced tool_tag scope name new.name (λ e. e.handler) new.handler previous
        (find same_entry key r.tools))

unfoldable pub replace_ui_mount :
    ContributionRegistry
    → ScopePath
    → ℕ
    → UiMountContribution
    → ℕ
    → ContributionRegistry × ScopeResult {0} Unit
unfolding check_replaced replaced_with find store same_entry validate_ui_slot with_slot
replace_ui_mount r scope name new previous =
    let key : EntryKey = record { scope = scope; name = name } in
    replaced_with r (record r { ui = store same_entry key (with_slot new) r.ui })
      (check_replaced ui_tag scope name new.name (λ e. e.component) new.component previous
          (find same_entry key r.ui)
        >> validate_ui_slot scope new.slot)

unfoldable pub replace_stage :
    ContributionRegistry
    → ScopePath
    → ℕ
    → ProjectionStageContribution
    → ℕ
    → ContributionRegistry × ScopeResult {0} Unit
unfolding check_replaced replaced_with find store same_stage
replace_stage r scope slot new previous =
    let key : StageKey = record { scope = scope; slot = slot; ordering = new.ordering } in
    replaced_with r (record r { stages = store same_stage key new r.stages })
      (check_replaced stage_tag scope slot new.slot (λ e. e.handler) new.handler previous
        (find same_stage key r.stages))

-- `recompose_overlays`: the overlay of one contribution, laid over those before it.
unfoldable pub recompose_one :
    ContributionRegistry → ScopePath → ContributionKind → ContributionRegistry
unfolding find store settled merge_theme same_entry same_path is_object
recompose_one r scope (settings s) = record r {
  settings = store same_path scope (settled s (find same_path scope r.settings)) r.settings;
}
recompose_one r scope (theme t) =
    let key : EntryKey = record { scope = scope; name = t.name } in
    if is_object t.overlay
    then record r {
      themes = store same_entry key (merge_theme t (find same_entry key r.themes)) r.themes;
    }
    else r
recompose_one r scope (command c) = r
recompose_one r scope (tool t) = r
recompose_one r scope (service s) = r
recompose_one r scope (keymap k) = r
recompose_one r scope (projection_stage p) = r
recompose_one r scope (ui_mount u) = r
recompose_one r scope (guard g) = r
recompose_one r scope (hook h) = r

unfoldable pub recompose_all :
    ContributionRegistry → ScopePath → List Contribution → ContributionRegistry
unfolding recompose_one same_path
recompose_all r scope [] = r
recompose_all r scope (c ∷ cs) =
    if same_path c.scope scope
    then recompose_all (recompose_one r c.scope c.kind) scope cs
    else recompose_all r scope cs

unfoldable pub recompose_overlays :
    ContributionRegistry → ScopePath → List Contribution → ContributionRegistry
unfolding recompose_all drop filter same_path
recompose_overlays r scope contributions =
    recompose_all
      (record r {
        settings = drop same_path scope r.settings;
        themes = filter (λ e. not (same_path e.0.scope scope)) r.themes;
      })
      scope contributions
