-- ===== src/Scopes/Removal/Succeeding.antt =====
-- A forced `remove_scope` of crates/kanbei-scopes/src/registry.rs goes through: its closure ends, no service in it is
-- missing, and its removals find an order.
use kanbei.Base.{
  ◌+◌, ◌≡◌, ◌<◌, refl, ap, ◌∙◌, inl, inr, Bool, true, false, ◌&&◌, not, none, some, List, [], ◌∷◌,
  if◌then◌else◌, length, All, All-mono, is_some, arith,
}
use kanbei.Base.Sorting.{All-sort_by, All-of-sort_by}
use kanbei.Services.Types.{ScopePath, ServiceKey, same_path, same_path_iff, same_key}
use kanbei.Services.KeyMap.{get}
use kanbei.Services.Registry.Ops.{ServiceRegistry, with_deps, snapshot, dependents_of}
use kanbei.Services.Registry.Holding.{RegistryHolds}
use kanbei.Scopes.Contrib.{Contribution}
use kanbei.Scopes.State.{ContributionRegistry}
use kanbei.Scopes.Removal.{
  Service, Removing, RemovedSet, removed_set, has_key, reversed, scope_keys, closure,
  finish_removal, remove_closed, remove_scope, without_scope,
}
use kanbei.Scopes.Removal.Edges.{dependents_of-Above}
use kanbei.Services.Unique.{IsUnique-Stored}
use kanbei.Scopes.Removal.Emptying.{IsOnce, All-by_key}
use kanbei.Scopes.Removal.Pending.{Published, Holding}
use kanbei.Scopes.Removal.Looping.{remove_pending-none}
use kanbei.Scopes.Removal.Closing.{Known, fresh-le, Covers, closure-Covers}
use kanbei.Scopes.Removal.Listing.{
  sort_by-IsOnce, filter-IsOnce, All-names, All-with_deps, with_deps-IsOnce, with_deps-none,
  find_service-cases, reversed-has_key, length-reversed, has_key-kept, has_key-sort_by,
  has_key-with_deps,
}

forced_branch {ℓ} : {A : Type ℓ} (b : Bool) (x y : A) → (if b && not true then x else y) ≡ y
forced_branch true x y = refl
forced_branch false x y = refl

All-always : (P : Service → Type 0) → ((x : Service) → P x) → (xs : List Service) → All P xs
All-always P f [] = tt
All-always P f (x ∷ xs) = (f x, All-always P f xs)

finish_removal-done :
    (before : ServiceKey → ServiceKey → Bool) (prior : Contribution → Contribution → Bool)
    (above : ScopePath → ScopePath → Bool) (r : ContributionRegistry) (scope : ScopePath)
    (done : Removing)
    → (set : RemovedSet) × (finish_removal before prior above r scope (done, none)
        ≡ (without_scope r scope done.services, removed_set set))
unfolding finish_removal
finish_removal-done before prior above r scope done = (_, refl)

module _ (before : ServiceKey → ServiceKey → Bool) (s : ServiceRegistry) (w : RegistryHolds s) where
  dependents :
      (k : ServiceKey)
      → is_some (get k s.deps) ≡ true
      → All (λ d. is_some (get d.key s.deps) ≡ true) (dependents_of before s k)
  dependents k there =
      All-mono
        (λ d. (is_some (get d.key s.deps) ≡ true) × (w.acyclic.rank k < w.acyclic.rank d.key))
        (λ d. is_some (get d.key s.deps) ≡ true) (λ d f. f.0) (dependents_of before s k)
        (dependents_of-Above before s w.acyclic k w.unique_deps there)

  -- The snapshot has the holder of each published key.
  snapshot-holders : All (λ (e : Service). get e.0 s.holders ≡ some e.1) (snapshot before s)
  unfolding snapshot
  snapshot-holders =
      All-sort_by (λ (a : Service) b. before a.0 b.0) (λ e. get e.0 s.holders ≡ some e.1)
        (with_deps s s.holders)
        (All-with_deps s (λ k p. get k s.holders ≡ some p) s.holders
          (IsUnique-Stored s.holders w.unique_holders))

  found : (k : ServiceKey) → is_some (get k s.deps) ≡ true → Published (snapshot before s) s k
  unfolding snapshot
  found k there =
      elim (find_service-cases (λ j p. get j s.holders ≡ some p) k (snapshot before s)
        snapshot-holders) [
          | inr f ↦ (there, f)
          | inl f ↦ absurd (
              ground (
                arith,
                there,
                w.paired k,
                with_deps-none s k s.holders (
                    All-of-sort_by (λ (a : Service) b. before a.0 b.0)
                      (λ (e : Service). same_key e.0 k ≡ false) (with_deps s s.holders) f),
              ))
        ]

  module _ (prior : Contribution → Contribution → Bool) (above : ScopePath → ScopePath → Bool)
      (scope : ScopePath) where
    scope_keys-Known :
        Known s.deps
          (scope_keys before prior above s scope)
          (reversed (scope_keys before prior above s scope) [])
    unfolding scope_keys snapshot has_key
    scope_keys-Known = record {
      published =
          All-names (λ (e : Service). same_path e.0.scope scope)
            (λ k. is_some (get k s.deps) ≡ true) (snapshot before s)
            (All-mono (λ (e : Service). get e.0 s.holders ≡ some e.1)
              (λ (e : Service). is_some (get e.0 s.deps) ≡ true)
              (λ e f. ground (arith, f, w.paired e.0)) (snapshot before s) snapshot-holders);
      once =
          filter-IsOnce (λ (e : Service). same_path e.0.scope scope) (snapshot before s)
            (sort_by-IsOnce (λ (a : Service) b. before a.0 b.0) (with_deps s s.holders)
              (with_deps-IsOnce s s.holders w.unique_holders));
      queued =
          All-by_key (λ k. has_key k (scope_keys before prior above s scope) ≡ true)
            (reversed (scope_keys before prior above s scope) [])
            (λ k e.
              ground (arith, e, reversed-has_key k (scope_keys before prior above s scope) []));
    }

    closed :
        (end : List ServiceKey) × (closure before prior above s
            (length (scope_keys before prior above s scope) + length s.deps)
            (scope_keys before prior above s scope)
            (reversed (scope_keys before prior above s scope) [])
          ≡ some end)
        × All (λ k. is_some (get k s.deps) ≡ true) end
        × IsOnce end
        × All (Covers before prior above s end) end
        × ((j : ServiceKey)
            → has_key j (scope_keys before prior above s scope) ≡ true
            → has_key j end ≡ true)
    closed =
        let ks = scope_keys before prior above s scope in
        closure-Covers before prior above s dependents (length ks + length s.deps) ks
          (reversed ks []) (omega (arith, length-reversed ks [], fresh-le ks s.deps))
          scope_keys-Known (λ k e. inl (ground (arith, e, reversed-has_key k ks [])))

    scope_keys-all :
        (k : ServiceKey)
        → k.scope ≡ scope
        → is_some (get k s.holders) ≡ true
        → has_key k (scope_keys before prior above s scope) ≡ true
    unfolding scope_keys snapshot
    scope_keys-all k e h =
        has_key-kept (λ (x : Service). same_path x.0.scope scope) k (snapshot before s)
          (All-always (λ x. x.0 ≡ k → same_path x.0.scope scope ≡ true)
            (λ x f. (same_path_iff x.0.scope scope).1 (ap (λ j. j.scope) f ∙ e))
            (snapshot before s))
          (has_key-sort_by (λ (a : Service) b. before a.0 b.0) k (with_deps s s.holders)
            ∙ has_key-with_deps s k s.holders
            ∙ h)

    start-Holding :
        (end : List ServiceKey)
        → All (λ k. is_some (get k s.deps) ≡ true) end
        → IsOnce end
        → All (Covers before prior above s end) end
        → Holding before
            (snapshot before s)
            end
            (record { services = s; removed_keys = []; contributions = []; cascaded = [] })
    start-Holding end published once covers = record {
      acyclic = w.acyclic;
      unique = w.unique_deps;
      once = once;
      published =
          All-mono (λ k. is_some (get k s.deps) ≡ true) (Published (snapshot before s) s) found end
            published;
      closed = covers;
      gone = tt;
    }

-- A forced removal of a scope, in a registry that is acyclic and pairs its maps, goes through and leaves no service of the scope:
-- it neither meets a missing service nor a cycle, and never ends for want of fuel.
pub remove_scope-forced :
    (before : ServiceKey → ServiceKey → Bool) (prior : Contribution → Contribution → Bool)
    (above : ScopePath → ScopePath → Bool) (r : ContributionRegistry) (scope : ScopePath)
    → RegistryHolds r.services
    → (left : ServiceRegistry) × (set : RemovedSet) × (remove_scope before prior above r scope true
        ≡ (without_scope r scope left, removed_set set))
      × ((k : ServiceKey) → k.scope ≡ scope → get k left.holders ≡ none)
unfolding remove_scope remove_closed
remove_scope-forced before prior above r scope w =
    let (end, e, published, once, covers, keeps) = closed before r.services w prior above scope in
    let (done, f, gone) =
      remove_pending-none before prior above scope (snapshot before r.services) (length end) end
        (record { services = r.services; removed_keys = []; contributions = []; cascaded = [] })
        (omega arith)
        (start-Holding before r.services w prior above scope end published once covers) in
    let (set, g) = finish_removal-done before prior above r scope done in
    (
      done.services,
      set,
      forced_branch _ _ _
          ∙ ap (remove_closed before prior above r scope) e
          ∙ ap (finish_removal before prior above r scope) f
          ∙ g,
      λ k here.
          ground
            (arith, gone k, keeps k, scope_keys-all before r.services w prior above scope k here),
    )
