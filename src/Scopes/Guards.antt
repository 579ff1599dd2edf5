-- ===== src/Scopes/Guards.antt =====
-- Monotonic guards under the publications of crates/kanbei-scopes/src/registry.rs.
use kanbei.Base.{
  ℕ, ◌≡◌, refl, sym, ap, subst, ◌∙◌, inl, inr, Bool, true, Option, none, some, List, [], ◌∷◌,
  Bool-cases, arith,
}
use kanbei.Base.Table.{Table, find, store, find-store}
use kanbei.Services.Types.{ScopePath, ServiceKey, ServiceResult}
use kanbei.Services.Registry.Ops.{ServiceRegistry}
use kanbei.Scopes.Contrib.{
  GuardContribution, Contribution, ContributionKind, command, tool, service, keymap, theme,
  projection_stage, ui_mount, guard, settings, hook, ok,
}
use kanbei.Scopes.State.{ContributionRegistry, EntryKey, same_entry, same_entry_iff, is_object}
use kanbei.Scopes.Validate.{
  Seen, nothing_seen, or_else, map_option, require_monotonic, validate_one, validate_loop,
  validate_inner,
}
use kanbei.Scopes.Displaced.{validate_planned, remove_displaced, remove_override_targets}
use kanbei.Scopes.Apply.{publish_service, apply_one, apply_all, next_state, apply_planned}
use kanbei.Scopes.Composition.{no_plan}
use kanbei.Scopes.Publication.{Result-cases}
use kanbei.Scopes.Vacancy.{ok-inj, first-ok, then-ok}

abbrev bits : GuardContribution → ℕ × Bool
bits g = (g.predicate, g.monotonic)

-- What was seen is what is stored, and a monotonic guard has a monotonic guard in its place.
record GuardsHold (r : ContributionRegistry) (seen : Table EntryKey (ℕ × Bool))
    (next : Table EntryKey GuardContribution) : Type 0 where
  agree :
      (k : EntryKey)
      → or_else (find same_entry k seen) (map_option bits (find same_entry k r.guards))
        ≡ map_option bits (find same_entry k next)
  monotone :
      (k : EntryKey) (g : GuardContribution)
      → find same_entry k r.guards ≡ some g
      → g.monotonic ≡ true
      → (h : GuardContribution) × (find same_entry k next ≡ some h) × (h.monotonic ≡ true)

module _ (r : ContributionRegistry) where
  monotonic-stays :
      (scope : ScopePath) (g h : GuardContribution) (held : Option (ℕ × Bool))
      → require_monotonic scope g held ≡ ok tt
      → held ≡ some (bits h)
      → h.monotonic ≡ true
      → g.monotonic ≡ true
  unfolding require_monotonic
  monotonic-stays scope g h none v e m = absurd (cc)
  monotonic-stays scope g h (some (predicate, monotonic)) v e m = ground (arith, v, e, m)

  guard-GuardsHold :
      (scope : ScopePath) (g : GuardContribution) (seen : Table EntryKey (ℕ × Bool))
      (next : Table EntryKey GuardContribution)
      → let k : EntryKey = record { scope = scope; name = g.name } in
        require_monotonic scope g
            (or_else (find same_entry k seen) (map_option bits (find same_entry k r.guards)))
          ≡ ok tt
        → GuardsHold r seen next
        → GuardsHold r (store same_entry k (bits g) seen) (store same_entry k g next)
  unfolding or_else map_option
  guard-GuardsHold scope g seen next v w =
      let k : EntryKey = record { scope = scope; name = g.name } in
      record {
        agree = λ j. elim (Bool-cases (same_entry k j)) [
          | inl s ↦
              rw
                (
                  find-store same_entry same_entry_iff k j (bits g) seen,
                  find-store same_entry same_entry_iff k j g next,
                  s,
                )
                refl
          | inr s ↦
              rw
                (
                  find-store same_entry same_entry_iff k j (bits g) seen,
                  find-store same_entry same_entry_iff k j g next,
                  s,
                )
                (w.agree j)
        ];
        monotone = λ j h e m. elim (Bool-cases (same_entry k j)) [
          | inl s ↦
              let (old, there, n) =
                w.monotone k h
                  (subst (λ i. find same_entry i r.guards ≡ some h) (sym ((same_entry_iff k j).0 s))
                    e)
                  m in
              (
                g,
                rw (find-store same_entry same_entry_iff k j g next, s) refl,
                monotonic-stays scope g old _ v (w.agree k ∙ ap (map_option bits) there) n,
              )
          | inr s ↦
              let (old, there, n) = w.monotone j h e m in
              (old, rw (find-store same_entry same_entry_iff k j g next, s) there, n)
        ];
      }

  GuardsHold-eq :
      {seen later : Table EntryKey (ℕ × Bool)} {next after : Table EntryKey GuardContribution}
      → later ≡ seen
      → after ≡ next
      → GuardsHold r seen next
      → GuardsHold r later after
  GuardsHold-eq e f w = rw (e, f) w

  publish_service-guards :
      (before : ServiceKey → ServiceKey → Bool) (next after : ContributionRegistry)
      (o : ServiceRegistry × ServiceResult {0} Unit)
      → publish_service before next o ≡ ok after
      → after.guards ≡ next.guards
  unfolding publish_service
  publish_service-guards before next after (services, ServiceResult.ok u) h =
      sym (ap (λ a. a.guards) (ok-inj h))
  publish_service-guards before next after (services, ServiceResult.err e) h = absurd (cc)

  abbrev kept_seen : {seen later : Seen} → ok seen ≡ ok later → later.guards ≡ seen.guards
  kept_seen e = sym (ap (λ s. s.guards) (ok-inj e))

  abbrev kept :
      {next after : ContributionRegistry} → ok next ≡ ok after → after.guards ≡ next.guards
  kept e = sym (ap (λ s. s.guards) (ok-inj e))

  module _ (replay_relevant : ℕ) (before : ServiceKey → ServiceKey → Bool) where
    one-GuardsHold :
        (seen later : Seen) (next after : ContributionRegistry) (scope : ScopePath)
        (kind : ContributionKind)
        → validate_one replay_relevant r seen scope kind ≡ ok later
        → apply_one before [] next scope kind ≡ ok after
        → GuardsHold r seen.guards next.guards
        → GuardsHold r later.guards after.guards
    unfolding validate_one apply_one
    one-GuardsHold seen later next after scope (command c) v h w =
        GuardsHold-eq (kept_seen (then-ok _ _ v)) (kept h) w
    one-GuardsHold seen later next after scope (tool c) v h w =
        GuardsHold-eq (kept_seen (then-ok _ _ v)) (kept h) w
    one-GuardsHold seen later next after scope (service s) v h w =
        GuardsHold-eq (kept_seen (then-ok _ _ v)) (publish_service-guards before next after _ h) w
    one-GuardsHold seen later next after scope (keymap c) v h w =
        GuardsHold-eq (kept_seen v) (kept h) w
    one-GuardsHold seen later next after scope (theme t) v h w =
        elim (Bool-cases (is_object t.overlay)) [
          | inl o ↦
              GuardsHold-eq (kept_seen (rw (o, validate_one) at v)) (kept (rw (o, apply_one) at h))
                w
          | inr o ↦ absurd (cc (rw (o, apply_one) at h))
        ]
    one-GuardsHold seen later next after scope (projection_stage c) v h w =
        GuardsHold-eq (kept_seen (then-ok _ _ v)) (kept h) w
    one-GuardsHold seen later next after scope (ui_mount c) v h w =
        GuardsHold-eq (kept_seen (then-ok _ _ v)) (kept h) w
    one-GuardsHold seen later next after scope (guard g) v h w =
        GuardsHold-eq (kept_seen (then-ok _ _ v)) (kept h)
          (guard-GuardsHold scope g seen.guards next.guards (first-ok _ _ v) w)
    one-GuardsHold seen later next after scope (settings c) v h w =
        GuardsHold-eq (kept_seen (then-ok _ _ v)) (kept h) w
    one-GuardsHold seen later next after scope (hook c) v h w =
        GuardsHold-eq (kept_seen (then-ok _ _ v)) (kept h) w

    loop-GuardsHold :
        (seen : Seen) (next after : ContributionRegistry) (staged : List Contribution)
        → validate_loop replay_relevant r seen staged ≡ ok tt
        → apply_all before [] next staged ≡ ok after
        → GuardsHold r seen.guards next.guards
        → (k : EntryKey) (g : GuardContribution) → find same_entry k r.guards ≡ some g
        → g.monotonic ≡ true
        → (h : GuardContribution) × (find same_entry k after.guards ≡ some h) × (h.monotonic ≡ true)
    unfolding validate_loop apply_all
    loop-GuardsHold seen next after [] v h w k g e m =
        subst (λ t. (b : GuardContribution) × (find same_entry k t ≡ some b) × (b.monotonic ≡ true))
          (sym (kept h)) (w.monotone k g e m)
    loop-GuardsHold seen next after (c ∷ cs) v h w k b e m =
        elim (Result-cases (validate_one replay_relevant r seen c.scope c.kind)) [
          | inr (x, f) ↦ absurd (cc (rw f at v))
          | inl (later, f) ↦ elim (Result-cases (apply_one before [] next c.scope c.kind)) [
            | inr (x, g) ↦ absurd (cc (rw g at h))
            | inl (mid, g) ↦
                loop-GuardsHold later mid after cs (rw f at v) (rw g at h)
                  (one-GuardsHold seen later next mid c.scope c.kind f g w) k b e m
          ]
        ]

-- A validated set that is applied with no plan leaves a monotonic guard in the place of each monotonic guard.
pub apply_planned-monotonic :
    (replay_relevant : ℕ) (before : ServiceKey → ServiceKey → Bool) (r : ContributionRegistry)
    (scope : ScopePath) (staged : List Contribution)
    → validate_planned replay_relevant r staged no_plan ≡ ok tt
    → (apply_planned before r scope staged no_plan).1 ≡ ok tt
    → (k : EntryKey) (g : GuardContribution) → find same_entry k r.guards ≡ some g
    → g.monotonic ≡ true
    → (h : GuardContribution) × (find same_entry k
          (apply_planned before r scope staged no_plan).0.guards
        ≡ some h)
      × (h.monotonic ≡ true)
unfolding validate_planned validate_inner apply_planned next_state remove_displaced
    remove_override_targets nothing_seen or_else find
apply_planned-monotonic replay_relevant before r scope staged v h k g e m =
    elim (Result-cases (next_state before r scope staged no_plan)) [
      | inr (x, f) ↦ absurd (cc (rw (f, apply_planned) at h))
      | inl (next, f) ↦
          rw (f, apply_planned)
            (loop-GuardsHold r replay_relevant before nothing_seen r next staged v (then-ok _ _ f)
              (record { agree = λ j. refl; monotone = λ j b there n. (b, there, n) }) k g e m)
    ]
