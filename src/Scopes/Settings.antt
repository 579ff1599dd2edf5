-- ===== src/Scopes/Settings.antt =====
-- The overlay of settings in crates/kanbei-scopes/src/registry.rs: `merge_settings` with its parts.
use kanbei.Base.{◌≡◌, refl, Option, none, some}
use kanbei.Scopes.Contrib.{ProviderSettings, ApprovalSettings, SettingsContribution}

-- `if incoming.x.is_some() { base.x = incoming.x }`.
unfoldable pub overlay {ℓ} : {A : Type ℓ} → Option A → Option A → Option A
overlay base none = base
overlay base (some a) = some a

unfoldable pub merge_provider :
    Option ProviderSettings → Option ProviderSettings → Option ProviderSettings
unfolding overlay
merge_provider (some base) (some incoming) = some (record {
  base_url = overlay base.base_url incoming.base_url;
  model = overlay base.model incoming.model;
  protocol = overlay base.protocol incoming.protocol;
  key = overlay base.key incoming.key;
  fake = overlay base.fake incoming.fake;
})
merge_provider (some base) none = some base
merge_provider none (some incoming) = some incoming
merge_provider none none = none

unfoldable pub merge_approval :
    Option ApprovalSettings → Option ApprovalSettings → Option ApprovalSettings
unfolding overlay
merge_approval (some base) (some incoming) = some (record {
  auto_approve = overlay base.auto_approve incoming.auto_approve;
  yolo = overlay base.yolo incoming.yolo;
})
merge_approval (some base) none = some base
merge_approval none (some incoming) = some incoming
merge_approval none none = none

unfoldable pub merge_settings : SettingsContribution → SettingsContribution → SettingsContribution
unfolding merge_provider merge_approval
merge_settings base incoming = record {
  provider = merge_provider base.provider incoming.provider;
  approval = merge_approval base.approval incoming.approval;
}

unfoldable pub no_settings : SettingsContribution
no_settings = record { provider = none; approval = none }

overlay_assoc {ℓ} :
    {A : Type ℓ} (a b c : Option A) → overlay (overlay a b) c ≡ overlay a (overlay b c)
unfolding overlay
overlay_assoc a b none = refl
overlay_assoc a b (some c) = refl

merge_provider_assoc :
    (a b c : Option ProviderSettings)
    → merge_provider (merge_provider a b) c ≡ merge_provider a (merge_provider b c)
unfolding merge_provider
merge_provider_assoc (some a) (some b) (some c) = simp overlay_assoc
merge_provider_assoc (some a) (some b) none = refl
merge_provider_assoc (some a) none (some c) = refl
merge_provider_assoc (some a) none none = refl
merge_provider_assoc none (some b) (some c) = refl
merge_provider_assoc none (some b) none = refl
merge_provider_assoc none none (some c) = refl
merge_provider_assoc none none none = refl

merge_approval_assoc :
    (a b c : Option ApprovalSettings)
    → merge_approval (merge_approval a b) c ≡ merge_approval a (merge_approval b c)
unfolding merge_approval
merge_approval_assoc (some a) (some b) (some c) = simp overlay_assoc
merge_approval_assoc (some a) (some b) none = refl
merge_approval_assoc (some a) none (some c) = refl
merge_approval_assoc (some a) none none = refl
merge_approval_assoc none (some b) (some c) = refl
merge_approval_assoc none (some b) none = refl
merge_approval_assoc none none (some c) = refl
merge_approval_assoc none none none = refl

-- Layers may be merged among themselves first.
pub merge_settings_assoc :
    (a b c : SettingsContribution)
    → merge_settings (merge_settings a b) c ≡ merge_settings a (merge_settings b c)
unfolding merge_settings
merge_settings_assoc a b c = rw (merge_provider_assoc, merge_approval_assoc) refl
