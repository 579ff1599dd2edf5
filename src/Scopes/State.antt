-- ===== src/Scopes/State.antt =====
-- `ContributionRegistry` of crates/kanbei-scopes/src/registry.rs, with its tables and their keys.
use kanbei.Base.{
  ℕ, ◌≡◌, ◌↔◌, Bool, true, false, ◌&&◌, ◌==◌, Option, none, some, List, [], if◌then◌else◌, arith,
}
use kanbei.Base.Table.{Table}
use kanbei.Services.Types.{ScopePath, same_path, same_path_iff}
use kanbei.Services.Registry.Ops.{ServiceRegistry}
use kanbei.Scopes.Contrib.{
  Value, Fields, no_fields, field, object, boolean, other, CommandContribution, ToolContribution,
  Keybinding, ThemeContribution, ProjectionStageContribution, UiMountContribution,
  GuardContribution, HookContribution, HookKind, on_turn_start, on_tool_intent,
  SettingsContribution,
}

pub record EntryKey : Type 0 where
  pub scope : ScopePath
  pub name : ℕ

pub record StageKey : Type 0 where
  pub scope : ScopePath
  pub slot : ℕ
  pub ordering : ℕ

pub record HookKey : Type 0 where
  pub scope : ScopePath
  pub hook : HookKind
  pub name : ℕ

unfoldable pub same_entry : EntryKey → EntryKey → Bool
unfolding same_path
same_entry j k = (j.name == k.name) && same_path j.scope k.scope

unfoldable pub same_stage : StageKey → StageKey → Bool
unfolding same_path
same_stage j k = (j.slot == k.slot) && (j.ordering == k.ordering) && same_path j.scope k.scope

unfoldable pub same_hook_kind : HookKind → HookKind → Bool
same_hook_kind on_turn_start on_turn_start = true
same_hook_kind on_turn_start on_tool_intent = false
same_hook_kind on_tool_intent on_turn_start = false
same_hook_kind on_tool_intent on_tool_intent = true

unfoldable pub same_hook : HookKey → HookKey → Bool
unfolding same_path same_hook_kind
same_hook j k = (j.name == k.name) && same_hook_kind j.hook k.hook && same_path j.scope k.scope

pub same_entry_iff : (j k : EntryKey) → (same_entry j k ≡ true) ↔ (j ≡ k)
unfolding same_entry
same_entry_iff j k = ground (arith, same_path_iff j.scope k.scope)

pub same_stage_iff : (j k : StageKey) → (same_stage j k ≡ true) ↔ (j ≡ k)
unfolding same_stage
same_stage_iff j k = ground (arith, same_path_iff j.scope k.scope)

same_hook_kind_iff : (j k : HookKind) → (same_hook_kind j k ≡ true) ↔ (j ≡ k)
unfolding same_hook_kind
same_hook_kind_iff on_turn_start on_turn_start = ground arith
same_hook_kind_iff on_turn_start on_tool_intent = ground arith
same_hook_kind_iff on_tool_intent on_turn_start = ground arith
same_hook_kind_iff on_tool_intent on_tool_intent = ground arith

pub same_hook_iff : (j k : HookKey) → (same_hook j k ≡ true) ↔ (j ≡ k)
unfolding same_hook
same_hook_iff j k = ground (arith, same_path_iff j.scope k.scope, same_hook_kind_iff j.hook k.hook)

pub record ContributionRegistry : Type 0 where
  pub commands : Table EntryKey CommandContribution
  pub tools : Table EntryKey ToolContribution
  pub keymaps : List (ScopePath × Keybinding)
  pub themes : Table EntryKey ThemeContribution
  pub stages : Table StageKey ProjectionStageContribution
  pub ui : Table EntryKey UiMountContribution
  pub guards : Table EntryKey GuardContribution
  pub hooks : Table HookKey HookContribution
  pub settings : Table ScopePath SettingsContribution
  pub services : ServiceRegistry

unfoldable pub new_registry : ServiceRegistry → ContributionRegistry
new_registry services = record {
  commands = [];
  tools = [];
  keymaps = [];
  themes = [];
  stages = [];
  ui = [];
  guards = [];
  hooks = [];
  settings = [];
  services = services;
}

-- `Value::is_object`, `is_boolean` and `get`.
unfoldable pub is_object : Value → Bool
is_object (object fs) = true
is_object (boolean b) = false
is_object (other n) = false

unfoldable pub is_boolean : Value → Bool
is_boolean (object fs) = false
is_boolean (boolean b) = true
is_boolean (other n) = false

unfoldable pub get_field : ℕ → Fields → Option Value
get_field name no_fields = none
get_field name (field n value fields) = if n == name then some value else get_field name fields

unfoldable pub set_field : ℕ → Value → Fields → Fields
set_field name value no_fields = field name value no_fields
set_field name value (field n old fields) =
    let rest = set_field name value fields in
    if n == name then field name value fields else field n old rest

-- `Map::extend`: the new fields win.
unfoldable pub extend_fields : Fields → Fields → Fields
unfolding set_field
extend_fields old no_fields = old
extend_fields old (field n value fields) = extend_fields (set_field n value old) fields

-- The overlay of a theme; only objects are stored, for which the other cases never arise.
unfoldable pub merge_overlay : Value → Value → Value
unfolding extend_fields
merge_overlay (object old) (object new) = object (extend_fields old new)
merge_overlay (object old) (boolean b) = object old
merge_overlay (object old) (other n) = object old
merge_overlay (boolean b) value = boolean b
merge_overlay (other n) value = other n
