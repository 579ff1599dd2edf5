-- ===== src/Scopes/Standing.antt =====
-- What a set that crates/kanbei-scopes/src/registry.rs has validated leaves standing once it is applied.
use kanbei.Base.{ℕ, ◌≡◌, refl, subst, inl, inr, Bool, none, some, List, [], ◌∷◌, Bool-cases, arith}
use kanbei.Base.Table.{Table, find}
use kanbei.Services.Types.{
  ScopePath, ServiceKey, ServiceProvider, ServiceDependency, ServiceResult, same_key, same_key_iff,
}
use kanbei.Services.KeyMap.{get, get-put}
use kanbei.Services.Registry.Ops.{ServiceRegistry, publish_with_deps}
use kanbei.Services.Registry.Runs.{publish_with_deps-ok}
use kanbei.Scopes.Contrib.{
  CommandContribution, ToolContribution, Keybinding, ThemeContribution, GuardContribution,
  SettingsContribution, ProjectionStageContribution, UiMountContribution, HookContribution,
  Contribution, ContributionKind, command, tool, service, keymap, theme, projection_stage, ui_mount,
  guard, settings, hook, command_tag, tool_tag, service_tag, stage_tag, ui_tag, named, ok,
}
use kanbei.Scopes.State.{
  ContributionRegistry, EntryKey, StageKey, HookKey, same_entry, same_stage, same_hook,
  same_entry_iff, same_stage_iff, same_hook_iff, is_object,
}
use kanbei.Scopes.Vacancy.{
  ok-inj, first-ok, then-ok, unheld, require_free-none, or_else-none, free-none, stores,
}
use kanbei.Scopes.Validate.{
  Seen, nothing_seen, or_else, map_option, provider_identity, validate_one, validate_loop,
  validate_inner,
}
use kanbei.Scopes.Displaced.{validate_planned, remove_displaced, remove_override_targets}
use kanbei.Scopes.Apply.{
  publish_service, apply_one, apply_all, next_state, apply_planned, with_slot,
}
use kanbei.Scopes.Composition.{no_plan}
use kanbei.Scopes.Publication.{Result-cases}

-- Each holder keeps its place.
pub record Stands (old new : ContributionRegistry) : Type 0 where
  pub commands :
      (k : EntryKey) (v : CommandContribution)
      → find same_entry k old.commands ≡ some v
      → find same_entry k new.commands ≡ some v
  pub tools :
      (k : EntryKey) (v : ToolContribution)
      → find same_entry k old.tools ≡ some v
      → find same_entry k new.tools ≡ some v
  pub stages :
      (k : StageKey) (v : ProjectionStageContribution)
      → find same_stage k old.stages ≡ some v
      → find same_stage k new.stages ≡ some v
  pub ui :
      (k : EntryKey) (v : UiMountContribution)
      → find same_entry k old.ui ≡ some v
      → find same_entry k new.ui ≡ some v
  pub hooks :
      (k : HookKey) (v : HookContribution)
      → find same_hook k old.hooks ≡ some v
      → find same_hook k new.hooks ≡ some v
  pub services :
      (k : ServiceKey) (p : ServiceProvider)
      → get k old.services.holders ≡ some p
      → get k new.services.holders ≡ some p

pub Stands-refl : (r : ContributionRegistry) → Stands r r
Stands-refl r = record {
  commands = λ k v h. h;
  tools = λ k v h. h;
  stages = λ k v h. h;
  ui = λ k v h. h;
  hooks = λ k v h. h;
  services = λ k p h. h;
}

-- The keymaps, themes, guards and settings are no part of what stands.
steady :
    (r next : ContributionRegistry) (keymaps : List (ScopePath × Keybinding))
    (themes : Table EntryKey ThemeContribution) (guards : Table EntryKey GuardContribution)
    (layers : Table ScopePath SettingsContribution)
    → Stands r next
    → Stands r
        (record next { keymaps = keymaps; themes = themes; guards = guards; settings = layers })
steady r next keymaps themes guards layers w = record {
  commands = w.commands;
  tools = w.tools;
  stages = w.stages;
  ui = w.ui;
  hooks = w.hooks;
  services = w.services;
}

module _ (replay_relevant : ℕ) (before : ServiceKey → ServiceKey → Bool)
    (r : ContributionRegistry) where
  publish_service-ok :
      (next after : ContributionRegistry) (o : ServiceRegistry × ServiceResult {0} Unit)
      → publish_service before next o ≡ ok after
      → (o.1 ≡ ServiceResult.ok tt) × (record next { services = o.0 } ≡ after)
  unfolding publish_service
  publish_service-ok next after (services, ServiceResult.ok tt) h = (refl, ok-inj h)
  publish_service-ok next after (services, ServiceResult.err e) h = absurd (cc)

  service-Stands :
      (next after : ContributionRegistry) (k : ServiceKey) (p : ServiceProvider)
      (ds : List ServiceDependency)
      → get k r.services.holders ≡ none
      → publish_service before next (publish_with_deps before k p ds next.services) ≡ ok after
      → Stands r next
      → Stands r after
  service-Stands next after k p ds free h w =
      let (done, e) =
        publish_service-ok next after (publish_with_deps before k p ds next.services) h in
      subst (Stands r) e (record {
        commands = w.commands;
        tools = w.tools;
        stages = w.stages;
        ui = w.ui;
        hooks = w.hooks;
        services = λ j q there. rw (publish_with_deps-ok before k p ds next.services done) (
            ground (
              arith,
              free,
              there,
              w.services j q there,
              same_key_iff k j,
              get-put k j p next.services.holders,
            ));
      })

  one-Stands :
      (seen later : Seen) (next after : ContributionRegistry) (scope : ScopePath)
      (kind : ContributionKind)
      → validate_one replay_relevant r seen scope kind ≡ ok later
      → apply_one before [] next scope kind ≡ ok after
      → Stands r next
      → Stands r after
  unfolding validate_one apply_one
  one-Stands seen later next after scope (command c) v h w =
      let k : EntryKey = record { scope = scope; name = c.name } in
      let free =
        free-none (λ e. e.handler) command_tag scope c.name (named c.handler)
          (find same_entry k seen.commands) (find same_entry k r.commands) (first-ok _ _ v) in
      subst (Stands r) (ok-inj h) (record {
        commands = stores same_entry same_entry_iff k c r.commands next.commands free w.commands;
        tools = w.tools;
        stages = w.stages;
        ui = w.ui;
        hooks = w.hooks;
        services = w.services;
      })
  one-Stands seen later next after scope (tool t) v h w =
      let k : EntryKey = record { scope = scope; name = t.name } in
      let free =
        free-none (λ e. e.handler) tool_tag scope t.name (named t.handler)
          (find same_entry k seen.tools) (find same_entry k r.tools)
          (then-ok _ _ (first-ok _ _ v)) in
      subst (Stands r) (ok-inj h) (record {
        commands = w.commands;
        tools = stores same_entry same_entry_iff k t r.tools next.tools free w.tools;
        stages = w.stages;
        ui = w.ui;
        hooks = w.hooks;
        services = w.services;
      })
  one-Stands seen later next after scope (service s) v h w =
      let free =
        or_else-none provider_identity (find same_key s.key seen.services)
          (get s.key r.services.holders)
          (require_free-none service_tag scope s.key.name (provider_identity s.provider)
            (or_else (find same_key s.key seen.services)
              (map_option provider_identity (get s.key r.services.holders)))
            (then-ok _ _ (first-ok _ _ v))) in
      service-Stands next after s.key s.provider s.deps free h w
  one-Stands seen later next after scope (keymap km) v h w =
      subst (Stands r) (ok-inj h) (steady r next _ _ _ _ w)
  one-Stands seen later next after scope (theme t) v h w = elim (Bool-cases (is_object t.overlay)) [
    | inl o ↦ subst (Stands r) (ok-inj (rw (o, apply_one) at h)) (steady r next _ _ _ _ w)
    | inr o ↦ absurd (cc (rw (o, apply_one) at h))
  ]
  one-Stands seen later next after scope (projection_stage p) v h w =
      let k : StageKey = record { scope = scope; slot = p.slot; ordering = p.ordering } in
      let free =
        free-none (λ e. e.handler) stage_tag scope p.slot (named p.handler)
          (find same_stage k seen.stages) (find same_stage k r.stages) (first-ok _ _ v) in
      subst (Stands r) (ok-inj h) (record {
        commands = w.commands;
        tools = w.tools;
        stages = stores same_stage same_stage_iff k p r.stages next.stages free w.stages;
        ui = w.ui;
        hooks = w.hooks;
        services = w.services;
      })
  one-Stands seen later next after scope (ui_mount u) v h w =
      let k : EntryKey = record { scope = scope; name = u.name } in
      let free =
        free-none (λ e. e.component) ui_tag scope u.name (named u.component)
          (find same_entry k seen.ui) (find same_entry k r.ui) (then-ok _ _ (first-ok _ _ v)) in
      subst (Stands r) (ok-inj h) (record {
        commands = w.commands;
        tools = w.tools;
        stages = w.stages;
        ui = stores same_entry same_entry_iff k (with_slot u) r.ui next.ui free w.ui;
        hooks = w.hooks;
        services = w.services;
      })
  one-Stands seen later next after scope (guard g) v h w =
      subst (Stands r) (ok-inj h) (steady r next _ _ _ _ w)
  one-Stands seen later next after scope (settings s) v h w =
      subst (Stands r) (ok-inj h) (steady r next _ _ _ _ w)
  one-Stands seen later next after scope (hook a) v h w =
      let k : HookKey = record { scope = scope; hook = a.hook; name = a.name } in
      let free =
        unheld _ (find same_hook k seen.hooks) (find same_hook k r.hooks)
          (then-ok _ _ (first-ok _ _ v)) in
      subst (Stands r) (ok-inj h) (record {
        commands = w.commands;
        tools = w.tools;
        stages = w.stages;
        ui = w.ui;
        hooks = stores same_hook same_hook_iff k a r.hooks next.hooks free w.hooks;
        services = w.services;
      })

  loop-Stands :
      (seen : Seen) (next after : ContributionRegistry) (staged : List Contribution)
      → validate_loop replay_relevant r seen staged ≡ ok tt
      → apply_all before [] next staged ≡ ok after
      → Stands r next
      → Stands r after
  unfolding validate_loop apply_all
  loop-Stands seen next after [] v h w = subst (Stands r) (ok-inj h) w
  loop-Stands seen next after (c ∷ cs) v h w =
      elim (Result-cases (validate_one replay_relevant r seen c.scope c.kind)) [
        | inr (e, f) ↦ absurd (cc (rw f at v))
        | inl (later, f) ↦ elim (Result-cases (apply_one before [] next c.scope c.kind)) [
          | inr (e, g) ↦ absurd (cc (rw g at h))
          | inl (mid, g) ↦
              loop-Stands later mid after cs (rw f at v) (rw g at h)
                (one-Stands seen later next mid c.scope c.kind f g w)
        ]
      ]

-- A validated set that is applied with no plan takes over no command, tool, stage, mount, hook or service.
pub apply_planned-Stands :
    (replay_relevant : ℕ) (before : ServiceKey → ServiceKey → Bool) (r : ContributionRegistry)
    (scope : ScopePath) (staged : List Contribution)
    → validate_planned replay_relevant r staged no_plan ≡ ok tt
    → (apply_planned before r scope staged no_plan).1 ≡ ok tt
    → Stands r (apply_planned before r scope staged no_plan).0
unfolding validate_planned validate_inner apply_planned next_state remove_displaced
    remove_override_targets
apply_planned-Stands replay_relevant before r scope staged v h =
    elim (Result-cases (next_state before r scope staged no_plan)) [
      | inr (e, f) ↦ absurd (cc (rw (f, apply_planned) at h))
      | inl (next, f) ↦
          rw (f, apply_planned)
            (loop-Stands replay_relevant before r nothing_seen r next staged v (then-ok _ _ f)
              (Stands-refl r))
    ]
