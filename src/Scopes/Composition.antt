-- ===== src/Scopes/Composition.antt =====
-- `CompositionStore` of crates/kanbei-scopes/src/epoch.rs: publication against the current epoch. The digest of the
-- canonical JSON is a parameter. A method that takes the registry gives back the composition and the registry.
use kanbei.Base.{ℕ, ◌≡◌, Bool, not, ◌==◌, List, [], ◌∷◌, if◌then◌else◌, add64}
use kanbei.Services.Types.{ScopePath, ServiceKey}
use kanbei.Scopes.Contrib.{Contribution, stale_epoch, ScopeResult, ok, err}
use kanbei.Scopes.State.{ContributionRegistry}
use kanbei.Scopes.Displaced.{OverridePlan, validate_planned}
use kanbei.Scopes.Apply.{apply_planned}
use kanbei.Scopes.Snapshot.{registry_snapshot}

pub record Composition : Type 0 where
  pub epoch : ℕ
  pub digest : ℕ
  pub contributions : List Contribution

pub record StagedSet : Type 0 where
  pub against_epoch : ℕ
  pub contributions : List Contribution

abbrev pub no_plan : OverridePlan
no_plan = record { removed = [] }

-- The scope of the first contribution, else the root.
unfoldable pub scope_of : List Contribution → ScopePath
scope_of [] = []
scope_of (c ∷ cs) = c.scope

unfoldable pub stage : Composition → List Contribution → StagedSet
stage current contributions = record {
  against_epoch = current.epoch;
  contributions = contributions;
}

module _ (replay_relevant : ℕ) (before : ServiceKey → ServiceKey → Bool)
    (prior : Contribution → Contribution → Bool) (composition_digest : List Contribution → ℕ) where
  unfoldable pub new : ContributionRegistry → Composition
  unfolding registry_snapshot
  new r =
      let contributions = registry_snapshot before prior r in
      record { epoch = 0; digest = composition_digest contributions; contributions = contributions }

  -- `commit`, which `reseed` is too.
  unfoldable pub reseed : Composition → ContributionRegistry → Composition
  unfolding registry_snapshot
  reseed current r =
      let contributions = registry_snapshot before prior r in
      record {
        epoch = add64 current.epoch 1;
        digest = composition_digest contributions;
        contributions = contributions;
      }

  -- `apply_planned(..)?`, then `commit`.
  unfoldable pub commit_applied :
      Composition
      → ContributionRegistry × ScopeResult {0} Unit
      → (Composition × ContributionRegistry) × ScopeResult {0} Unit
  unfolding reseed
  commit_applied current (r, ok u) = ((reseed current r, r), ok tt)
  commit_applied current (r, err e) = ((current, r), err e)

  unfoldable pub stage_publish_planned :
      Composition
      → ContributionRegistry
      → List Contribution
      → OverridePlan
      → (Composition × ContributionRegistry) × ScopeResult {0} Unit
  unfolding validate_planned apply_planned commit_applied scope_of
  stage_publish_planned current r staged plan =
      elim (validate_planned replay_relevant r staged plan) [
        | err e ↦ ((current, r), err e)
        | ok u ↦ commit_applied current (apply_planned before r (scope_of staged) staged plan)
      ]

  unfoldable pub publish_planned :
      Composition
      → ContributionRegistry
      → StagedSet
      → OverridePlan
      → (Composition × ContributionRegistry) × ScopeResult {0} Unit
  unfolding stage_publish_planned
  publish_planned current r staged plan =
      if not (staged.against_epoch == current.epoch)
      then ((current, r), err (stale_epoch staged.against_epoch current.epoch))
      else stage_publish_planned current r staged.contributions plan

  -- `stage_publish` and `publish`.
  unfoldable pub stage_publish :
      Composition
      → ContributionRegistry
      → List Contribution
      → (Composition × ContributionRegistry) × ScopeResult {0} Unit
  unfolding stage_publish_planned
  stage_publish current r staged = stage_publish_planned current r staged no_plan

  unfoldable pub publish :
      Composition
      → ContributionRegistry
      → StagedSet
      → (Composition × ContributionRegistry) × ScopeResult {0} Unit
  unfolding publish_planned
  publish current r staged = publish_planned current r staged no_plan

  -- The composition is the one of the registry.
  unfoldable pub IsCurrent : Composition → ContributionRegistry → Type 0
  unfolding registry_snapshot
  IsCurrent current r =
      (current.contributions ≡ registry_snapshot before prior r)
      × (current.digest ≡ composition_digest (registry_snapshot before prior r))
