-- ===== src/Scopes/Layers.antt =====
-- Replaying the layers of settings in crates/kanbei-scopes/src/registry.rs gives what applying them gave.
use kanbei.Base.{
  ◌≡◌, refl, sym, ap, subst, ◌∙◌, inl, inr, Bool, Option, none, some, List, [], ◌∷◌, Bool-cases,
  arith,
}
use kanbei.Base.Table.{Table, find, store, find-store, find-drop}
use kanbei.Services.Types.{ScopePath, ServiceKey, ServiceResult, same_path, same_path_iff}
use kanbei.Services.Registry.Ops.{ServiceRegistry}
use kanbei.Scopes.Contrib.{
  SettingsContribution, Contribution, ContributionKind, command, tool, service, keymap, theme,
  projection_stage, ui_mount, guard, settings, hook, ok,
}
use kanbei.Scopes.State.{ContributionRegistry, is_object}
use kanbei.Scopes.Apply.{
  apply_one, apply_all, check_scope, publish_service, settled, next_state, apply_planned,
}
use kanbei.Scopes.Displaced.{remove_displaced}
use kanbei.Scopes.Composition.{no_plan}
use kanbei.Scopes.Publication.{Result-cases}
use kanbei.Scopes.Vacancy.{ok-inj, first-ok, then-ok}
use kanbei.Scopes.Replace.{recompose_one, recompose_all, recompose_overlays}

-- The settings of a scope after one more layer.
layered : ContributionKind → Option SettingsContribution → Option SettingsContribution
layered (settings s) held = some (settled s held)
layered (command c) held = held
layered (tool t) held = held
layered (service s) held = held
layered (keymap k) held = held
layered (theme t) held = held
layered (projection_stage p) held = held
layered (ui_mount u) held = held
layered (guard g) held = held
layered (hook h) held = held

stored_settings :
    (scope : ScopePath) (s : SettingsContribution) (m : Table ScopePath SettingsContribution)
    → find same_path scope (store same_path scope s m) ≡ some s
stored_settings scope s m =
    ground (arith, find-store same_path same_path_iff scope scope s m, same_path_iff scope scope)

module _ (before : ServiceKey → ServiceKey → Bool) (scope : ScopePath) where
  published_settings :
      (r after : ContributionRegistry) (o : ServiceRegistry × ServiceResult {0} Unit)
      → publish_service before r o ≡ ok after
      → find same_path scope after.settings ≡ find same_path scope r.settings
  unfolding publish_service
  published_settings r after (services, ServiceResult.ok u) h =
      sym (ap (λ a. find same_path scope a.settings) (ok-inj h))
  published_settings r after (services, ServiceResult.err e) h = absurd (cc)

  abbrev kept :
      {r after : ContributionRegistry}
      → ok r ≡ ok after
      → find same_path scope after.settings ≡ find same_path scope r.settings
  kept e = sym (ap (λ a. find same_path scope a.settings) (ok-inj e))

  apply_one-layered :
      (removed : List Contribution) (r after : ContributionRegistry) (kind : ContributionKind)
      → apply_one before removed r scope kind ≡ ok after
      → find same_path scope after.settings ≡ layered kind (find same_path scope r.settings)
  unfolding apply_one layered
  apply_one-layered removed r after (settings s) h =
      kept h ∙ stored_settings scope (settled s (find same_path scope r.settings)) r.settings
  apply_one-layered removed r after (command c) h = kept h
  apply_one-layered removed r after (tool t) h = kept h
  apply_one-layered removed r after (service s) h = published_settings r after _ h
  apply_one-layered removed r after (keymap k) h = kept h
  apply_one-layered removed r after (theme t) h = elim (Bool-cases (is_object t.overlay)) [
    | inl o ↦ kept (rw (o, apply_one) at h)
    | inr o ↦ absurd (cc (rw (o, apply_one) at h))
  ]
  apply_one-layered removed r after (projection_stage p) h = kept h
  apply_one-layered removed r after (ui_mount u) h = kept h
  apply_one-layered removed r after (guard g) h = kept h
  apply_one-layered removed r after (hook k) h = kept h

  recompose_one-layered :
      (r : ContributionRegistry) (kind : ContributionKind)
      → find same_path scope (recompose_one r scope kind).settings
        ≡ layered kind (find same_path scope r.settings)
  unfolding recompose_one layered
  recompose_one-layered r (settings s) =
      stored_settings scope (settled s (find same_path scope r.settings)) r.settings
  recompose_one-layered r (command c) = refl
  recompose_one-layered r (tool t) = refl
  recompose_one-layered r (service s) = refl
  recompose_one-layered r (keymap k) = refl
  recompose_one-layered r (theme t) = elim (Bool-cases (is_object t.overlay)) [
    | inl o ↦ rw (o, recompose_one) refl
    | inr o ↦ rw (o, recompose_one) refl
  ]
  recompose_one-layered r (projection_stage p) = refl
  recompose_one-layered r (ui_mount u) = refl
  recompose_one-layered r (guard g) = refl
  recompose_one-layered r (hook h) = refl

  -- The same layers over the same settings.
  loops-agree :
      (removed : List Contribution) (r after s : ContributionRegistry) (staged : List Contribution)
      → check_scope before scope staged ≡ ok tt
      → apply_all before removed r staged ≡ ok after
      → find same_path scope s.settings ≡ find same_path scope r.settings
      → find same_path scope (recompose_all s scope staged).settings
        ≡ find same_path scope after.settings
  unfolding check_scope apply_all recompose_all
  loops-agree removed r after s [] c h e = e ∙ ap (λ a. find same_path scope a.settings) (ok-inj h)
  loops-agree removed r after s (x ∷ xs) c h e = elim (Bool-cases (same_path x.scope scope)) [
    | inr f ↦ absurd (cc (rw (f, check_scope) at c))
    | inl f ↦ elim (Result-cases (apply_one before removed r x.scope x.kind)) [
      | inr (b, g) ↦ absurd (cc (rw g at h))
      | inl (mid, g) ↦ rw f (
          loops-agree removed mid after (recompose_one s x.scope x.kind) xs
            (rw (f, check_scope) at c) (rw g at h)
            (subst
              (λ t.
                apply_one before removed r t x.kind ≡ ok mid
                → find same_path scope (recompose_one s t x.kind).settings
                  ≡ find same_path scope mid.settings)
              (sym ((same_path_iff x.scope scope).0 f))
              (λ k.
                recompose_one-layered s x.kind
                ∙ ap (layered x.kind) e
                ∙ sym (apply_one-layered removed r mid x.kind k))
              g))
    ]
  ]

  -- Replaying the applied set, over a scope that had no settings, gives the settings that applying it gave.
  pub recompose_overlays-apply_planned :
      (r : ContributionRegistry) (staged : List Contribution)
      → find same_path scope r.settings ≡ none
      → (apply_planned before r scope staged no_plan).1 ≡ ok tt
      → let after = (apply_planned before r scope staged no_plan).0 in
        find same_path scope (recompose_overlays after scope staged).settings
        ≡ find same_path scope after.settings
  unfolding apply_planned next_state remove_displaced recompose_overlays
  recompose_overlays-apply_planned r staged free h =
      elim (Result-cases (next_state before r scope staged no_plan)) [
        | inr (x, f) ↦ absurd (cc (rw (f, apply_planned) at h))
        | inl (next, f) ↦
            rw (f, apply_planned)
              (loops-agree [] r next _ staged (first-ok _ _ f) (then-ok _ _ f) (
                ground (
                  arith,
                  free,
                  find-drop same_path same_path_iff scope scope next.settings,
                  same_path_iff scope scope,
                )))
      ]
