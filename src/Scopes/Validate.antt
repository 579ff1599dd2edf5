-- ===== src/Scopes/Validate.antt =====
-- `validate_inner` of crates/kanbei-scopes/src/registry.rs, one contribution at a time. The field name
-- `replay_relevant` is a parameter, as names are numbers. The log line for a shadowed key binding is left out.
use kanbei.Base.{
  ℕ, Bool, true, false, ◌&&◌, ◌||◌, not, ◌==◌, leb, Option, none, some, List, [], ◌∷◌,
  if◌then◌else◌, is_some, length,
}
use kanbei.Base.Table.{Table, find, store}
use kanbei.Services.Types.{ScopePath, ServiceKey, ServiceProvider, same_path, same_key}
use kanbei.Services.KeyMap.{get}
use kanbei.Scopes.Contrib.{
  Value, object, boolean, other, KeyReference, env, keychain, GuardContribution,
  SettingsContribution, Contribution, ContributionKind, command, tool, service, keymap, theme,
  projection_stage, ui_mount, guard, settings, hook, KindTag, command_tag, tool_tag, service_tag,
  stage_tag, ui_tag, guard_tag, hook_tag, Holder, named, identified, bad_manifest, foreign_key,
  overlay_not_object, bad_slot, empty_key_reference, empty_hook_name, conflict,
  invalid_contribution, ScopeResult, ok, err, ◌>>◌, ◌>>=◌,
}
use kanbei.Scopes.State.{
  ContributionRegistry, EntryKey, StageKey, HookKey, same_entry, same_stage, same_hook, is_object,
  is_boolean, get_field,
}

-- What the earlier contributions of the set hold.
pub record Seen : Type 0 where
  pub commands : Table EntryKey ℕ
  pub tools : Table EntryKey ℕ
  pub services : Table ServiceKey Holder
  pub stages : Table StageKey ℕ
  pub ui : Table EntryKey ℕ
  pub guards : Table EntryKey (ℕ × Bool)
  pub hooks : Table HookKey (Unit {0})

unfoldable pub nothing_seen : Seen
nothing_seen = record {
  commands = [];
  tools = [];
  services = [];
  stages = [];
  ui = [];
  guards = [];
  hooks = [];
}

-- `Option::or_else`.
unfoldable pub or_else {ℓ} : {A : Type ℓ} → Option A → Option A → Option A
or_else (some a) o = some a
or_else none o = o

unfoldable pub map_option {ℓ κ} : {A : Type ℓ} {B : Type κ} → (A → B) → Option A → Option B
map_option f none = none
map_option f (some a) = some (f a)

unfoldable pub provider_identity : ServiceProvider → Holder
provider_identity p = identified p.module_id p.generation

-- A name that nobody holds.
unfoldable pub require_free :
    KindTag → ScopePath → ℕ → Holder → Option Holder → ScopeResult {0} Unit
require_free tag scope name challenger none = ok tt
require_free tag scope name challenger (some holder) =
    err (conflict tag scope name holder challenger)

unfoldable pub valid_manifest : ℕ → Value → Bool
unfolding get_field is_boolean
valid_manifest replay_relevant (object fs) = elim (get_field replay_relevant fs) [
  | none ↦ false
  | some v ↦ is_boolean v
]
valid_manifest replay_relevant (boolean b) = false
valid_manifest replay_relevant (other n) = false

-- The slot: ASCII letters, digits, `-` and `_`.
unfoldable pub slot_byte : ℕ → Bool
slot_byte c =
    (leb 48 c && leb c 57)
    || (leb 65 c && leb c 90)
    || (leb 97 c && leb c 122)
    || (c == 45)
    || (c == 95)

unfoldable pub all_slot_bytes : List ℕ → Bool
unfolding slot_byte
all_slot_bytes [] = true
all_slot_bytes (c ∷ cs) = slot_byte c && all_slot_bytes cs

unfoldable pub validate_ui_slot : ScopePath → Option (List ℕ) → ScopeResult {0} Unit
unfolding all_slot_bytes
validate_ui_slot scope none = ok tt
validate_ui_slot scope (some slot) =
    if not (length slot == 0) && leb (length slot) 32 && all_slot_bytes slot
    then ok tt
    else err (invalid_contribution scope (bad_slot slot))

unfoldable pub valid_reference : KeyReference → Bool
valid_reference (env name) = not (name == 0)
valid_reference (keychain s account) = not (s == 0) && not (account == 0)

unfoldable pub validate_settings : ScopePath → SettingsContribution → ScopeResult {0} Unit
unfolding valid_reference
validate_settings scope s = elim s.provider [
  | none ↦ ok tt
  | some p ↦ elim p.key [
    | none ↦ ok tt
    | some key ↦
        if valid_reference key
        then ok tt
        else err (invalid_contribution scope (empty_key_reference key))
  ]
]

-- A monotonic guard is not replaced by another.
unfoldable pub require_monotonic :
    ScopePath → GuardContribution → Option (ℕ × Bool) → ScopeResult {0} Unit
require_monotonic scope g none = ok tt
require_monotonic scope g (some (predicate, monotonic)) =
    if monotonic && not g.monotonic
    then err (conflict guard_tag scope g.name (named predicate) (named g.predicate))
    else ok tt

-- One turn of the loop.
module _ (replay_relevant : ℕ) where
  unfoldable pub validate_one :
      ContributionRegistry → Seen → ScopePath → ContributionKind → ScopeResult Seen
  unfolding find store or_else map_option require_free valid_manifest same_entry same_stage
      same_hook same_path get provider_identity validate_ui_slot validate_settings require_monotonic
      is_object
  validate_one r seen scope (command c) =
      let key : EntryKey = record { scope = scope; name = c.name } in
      let held =
        or_else (find same_entry key seen.commands)
          (map_option (λ e. e.handler) (find same_entry key r.commands)) in
      require_free command_tag scope c.name (named c.handler) (map_option named held)
      >> ok (record seen { commands = store same_entry key c.handler seen.commands })
  validate_one r seen scope (tool t) =
      let key : EntryKey = record { scope = scope; name = t.name } in
      let held =
        or_else (find same_entry key seen.tools)
          (map_option (λ e. e.handler) (find same_entry key r.tools)) in
      (if valid_manifest replay_relevant t.manifest
        then ok tt
        else err (invalid_contribution scope bad_manifest))
      >> require_free tool_tag scope t.name (named t.handler) (map_option named held)
      >> ok (record seen { tools = store same_entry key t.handler seen.tools })
  validate_one r seen scope (service s) =
      let held =
        or_else (find same_key s.key seen.services)
          (map_option provider_identity (get s.key r.services.holders)) in
      (if same_path s.key.scope scope
        then ok tt
        else err (invalid_contribution scope (foreign_key s.key)))
      >> require_free service_tag scope s.key.name (provider_identity s.provider) held
      >> ok (record seen {
        services = store same_key s.key (provider_identity s.provider) seen.services;
      })
  validate_one r seen scope (keymap kb) = ok seen
  validate_one r seen scope (theme t) =
      if is_object t.overlay then ok seen else err (invalid_contribution scope overlay_not_object)
  validate_one r seen scope (projection_stage p) =
      let key : StageKey = record { scope = scope; slot = p.slot; ordering = p.ordering } in
      let held =
        or_else (find same_stage key seen.stages)
          (map_option (λ e. e.handler) (find same_stage key r.stages)) in
      require_free stage_tag scope p.slot (named p.handler) (map_option named held)
      >> ok (record seen { stages = store same_stage key p.handler seen.stages })
  validate_one r seen scope (ui_mount u) =
      let key : EntryKey = record { scope = scope; name = u.name } in
      let held =
        or_else (find same_entry key seen.ui)
          (map_option (λ e. e.component) (find same_entry key r.ui)) in
      validate_ui_slot scope u.slot
      >> require_free ui_tag scope u.name (named u.component) (map_option named held)
      >> ok (record seen { ui = store same_entry key u.component seen.ui })
  validate_one r seen scope (guard g) =
      let key : EntryKey = record { scope = scope; name = g.name } in
      let held =
        or_else (find same_entry key seen.guards)
          (map_option (λ e. (e.predicate, e.monotonic)) (find same_entry key r.guards)) in
      require_monotonic scope g held
      >> ok (record seen { guards = store same_entry key (g.predicate, g.monotonic) seen.guards })
  validate_one r seen scope (settings s) = validate_settings scope s >> ok seen
  validate_one r seen scope (hook h) =
      let key : HookKey = record { scope = scope; hook = h.hook; name = h.name } in
      (if h.name == 0 then err (invalid_contribution scope empty_hook_name) else ok tt)
      >> (if is_some (find same_hook key seen.hooks) || is_some (find same_hook key r.hooks)
          then err (conflict hook_tag scope h.name (named h.name) (named h.name))
          else ok tt)
      >> ok (record seen { hooks = store same_hook key tt seen.hooks })

  unfoldable pub validate_loop :
      ContributionRegistry → Seen → List Contribution → ScopeResult {0} Unit
  unfolding validate_one
  validate_loop r seen [] = ok tt
  validate_loop r seen (c ∷ cs) = validate_one r seen c.scope c.kind >>= λ s. validate_loop r s cs

  unfoldable pub validate_inner : ContributionRegistry → List Contribution → ScopeResult {0} Unit
  unfolding validate_loop nothing_seen
  validate_inner r staged = validate_loop r nothing_seen staged
