-- ===== src/Scopes/Contrib.antt =====
-- crates/kanbei-scopes/src/contrib.rs and errors.rs: the contributions of modules. A number stands for each string
-- that is compared and never read, 0 for the empty one; a slot is the bytes of its string.
use kanbei.Base.{ℕ, Bool, true, Option, List}
use kanbei.Services.Types.{ScopePath, ServiceKey, ServiceDependency, ServiceProvider, ServiceError}

-- The JSON values that a manifest and an overlay are.
mutual
  pub data Value : Type 0 where
    boolean : Bool → Value
    object : Fields → Value
    other : ℕ → Value

  pub data Fields : Type 0 where
    no_fields : Fields
    field : ℕ → Value → Fields → Fields

pub record CommandContribution : Type 0 where
  pub name : ℕ
  pub handler : ℕ

pub record ToolContribution : Type 0 where
  pub name : ℕ
  pub manifest : Value
  pub handler : ℕ

pub record ServiceContribution : Type 0 where
  pub key : ServiceKey
  pub provider : ServiceProvider
  pub deps : List ServiceDependency

pub record KeyContext : Type 0 where
  pub modal : Bool
  pub overlay : Bool

pub data ContextPredicate : Type 0 where
  always : ContextPredicate
  modal : ContextPredicate
  overlay : ContextPredicate

unfoldable pub matches : ContextPredicate → KeyContext → Bool
matches ContextPredicate.always ctx = true
matches ContextPredicate.modal ctx = ctx.modal
matches ContextPredicate.overlay ctx = ctx.overlay

unfoldable pub context_rank : ContextPredicate → ℕ
context_rank ContextPredicate.always = 0
context_rank ContextPredicate.overlay = 1
context_rank ContextPredicate.modal = 2

pub data KeymapOrigin : Type 0 where
  builtin : KeymapOrigin
  plugin : KeymapOrigin
  user_config : KeymapOrigin

unfoldable pub origin_rank : KeymapOrigin → ℕ
origin_rank KeymapOrigin.builtin = 0
origin_rank KeymapOrigin.plugin = 1
origin_rank KeymapOrigin.user_config = 2

pub record Keybinding : Type 0 where
  pub key : ℕ
  pub context : ContextPredicate
  pub action : ℕ
  pub origin : KeymapOrigin
  pub owner : Option ℕ

pub record ThemeContribution : Type 0 where
  pub name : ℕ
  pub overlay : Value

pub record ProjectionStageContribution : Type 0 where
  pub slot : ℕ
  pub ordering : ℕ
  pub handler : ℕ

pub record UiMountContribution : Type 0 where
  pub name : ℕ
  pub component : ℕ
  pub slot : Option (List ℕ)

pub record GuardContribution : Type 0 where
  pub name : ℕ
  pub predicate : ℕ
  pub monotonic : Bool

pub data KeyReference : Type 0 where
  env : ℕ → KeyReference
  keychain : ℕ → ℕ → KeyReference

pub record ProviderSettings : Type 0 where
  pub base_url : Option ℕ
  pub model : Option ℕ
  pub protocol : Option ℕ
  pub key : Option KeyReference
  pub fake : Option Bool

pub record ApprovalSettings : Type 0 where
  pub auto_approve : Option Bool
  pub yolo : Option Bool

pub record SettingsContribution : Type 0 where
  pub provider : Option ProviderSettings
  pub approval : Option ApprovalSettings

pub data HookKind : Type 0 where
  on_turn_start : HookKind
  on_tool_intent : HookKind

pub record HookContribution : Type 0 where
  pub name : ℕ
  pub hook : HookKind

pub data ContributionKind : Type 0 where
  command : CommandContribution → ContributionKind
  tool : ToolContribution → ContributionKind
  service : ServiceContribution → ContributionKind
  keymap : Keybinding → ContributionKind
  theme : ThemeContribution → ContributionKind
  projection_stage : ProjectionStageContribution → ContributionKind
  ui_mount : UiMountContribution → ContributionKind
  guard : GuardContribution → ContributionKind
  settings : SettingsContribution → ContributionKind
  hook : HookContribution → ContributionKind

pub record Contribution : Type 0 where
  pub scope : ScopePath
  pub kind : ContributionKind

-- The `kind` of a conflict.
pub data KindTag : Type 0 where
  command_tag : KindTag
  tool_tag : KindTag
  service_tag : KindTag
  stage_tag : KindTag
  ui_tag : KindTag
  guard_tag : KindTag
  hook_tag : KindTag

-- Who holds a name: a handler, or a module with its generation.
pub data Holder : Type 0 where
  named : ℕ → Holder
  identified : ℕ → ℕ → Holder

pub data Violation : Type 0 where
  bad_manifest : Violation
  foreign_key : ServiceKey → Violation
  overlay_not_object : Violation
  bad_slot : List ℕ → Violation
  empty_key_reference : KeyReference → Violation
  empty_hook_name : Violation
  foreign_scope : ScopePath → Violation
  service_removal : Violation

pub data InputFault : Type 0 where
  nested_scope : InputFault
  no_root : InputFault
  empty_scope_name : InputFault
  unknown_scope : ScopePath → InputFault
  removal_cycle : ScopePath → InputFault
  renamed : KindTag → ℕ → ℕ → InputFault
  unregistered : KindTag → ℕ → InputFault

pub data ScopeError : Type 0 where
  conflict : KindTag → ScopePath → ℕ → Holder → Holder → ScopeError
  duplicate_scope : ScopePath → ℕ → ScopeError
  stale_epoch : ℕ → ℕ → ScopeError
  dependents_remain : ScopePath → List ServiceDependency → ScopeError
  invalid_contribution : ScopePath → Violation → ScopeError
  invalid_input : InputFault → ScopeError
  service_error : ServiceError → ScopeError

pub data ScopeResult {ℓ} (A : Type ℓ) : Type ℓ where
  ok : A → ScopeResult A
  err : ScopeError → ScopeResult A

infixl 5 ◌>>=◌ ◌>>◌
abbrev pub ◌>>=◌ {ℓ κ} :
    {A : Type ℓ} {B : Type κ} → ScopeResult A → (A → ScopeResult B) → ScopeResult B
ok a >>= f = f a
err e >>= f = err e

abbrev pub ◌>>◌ {ℓ} : {B : Type ℓ} → ScopeResult (Unit {0}) → ScopeResult B → ScopeResult B
m >> k = m >>= λ _. k
