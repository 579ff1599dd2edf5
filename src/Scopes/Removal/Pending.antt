-- ===== src/Scopes/Removal/Pending.antt =====
-- What holds between the turns of the second loop of `remove_scope` in crates/kanbei-scopes/src/registry.rs.
use kanbei.Base.{
  ℕ, ◌≡◌, ◌<◌, ◌≤◌, refl, inl, inr, Bool, true, none, some, List, [], ◌∷◌, All, Bool-cases, is_some,
  arith,
}
use kanbei.Services.Types.{ServiceKey, ServiceDependency, ServiceProvider}
use kanbei.Services.KeyMap.{get}
use kanbei.Services.Registry.Graph.{Dependencies}
use kanbei.Services.Registry.Ops.{ServiceRegistry, dependents_of}
use kanbei.Services.Registry.Acyclic.{IsAcyclic}
use kanbei.Scopes.Removal.{Removing, Service, has_key, all_removed, find_service}
use kanbei.Services.Unique.{IsUnique}
use kanbei.Scopes.Removal.Emptying.{IsOnce, All-has_key}

-- The key is published, by the provider that was captured.
abbrev pub Published : List Service → ServiceRegistry → ServiceKey → Type 0
Published all s k =
    (is_some (get k s.deps) ≡ true)
    × ((p : ServiceProvider) × (ds : List ServiceDependency) × (find_service k all ≡ some (p, ds))
        × (get k s.holders ≡ some p))

-- Every pending key is published by the provider that was captured, and has its dependents among the pending keys;
-- nothing depends on itself through others, and what was removed is gone.
pub record Holding (before : ServiceKey → ServiceKey → Bool) (all : List Service)
    (pending : List ServiceKey) (st : Removing) : Type 0 where
  pub acyclic : IsAcyclic st.services.deps
  pub unique : IsUnique st.services.deps
  pub once : IsOnce pending
  pub published : All (Published all st.services) pending
  pub closed :
      All
        (λ k. All (λ d. has_key d.key pending ≡ true) (dependents_of before st.services k))
        pending
  pub gone : All (λ k. get k st.services.deps ≡ none) st.removed_keys

pub all_removed-nil :
    (ds : List ServiceDependency) (removed : List ServiceKey) (m : Dependencies)
    → All (λ k. get k m ≡ none) removed
    → All (λ d. is_some (get d.key m) ≡ true) ds
    → all_removed ds removed ≡ true
    → ds ≡ []
unfolding all_removed
all_removed-nil [] removed m g a h = refl
all_removed-nil (d ∷ ds) removed m g a h = elim (Bool-cases (has_key d.key removed)) [
  | inl e ↦ absurd (ground (arith, a.0, All-has_key (λ k. get k m ≡ none) d.key removed e g))
  | inr e ↦ absurd (ground (arith, e, h))
]

pub All-three :
    (P Q R : ServiceKey → Type 0) (ks : List ServiceKey)
    → All P ks
    → All Q ks
    → All R ks
    → All (λ k. P k × Q k × R k) ks
All-three P Q R [] f g h = tt
All-three P Q R (k ∷ ks) f g h = ((f.0, g.0, h.0), All-three P Q R ks f.1 g.1 h.1)

-- None is above the highest of a closed list.
pub none_above :
    (rank : ServiceKey → ℕ) (m : ServiceKey) (pending : List ServiceKey)
    (ds : List ServiceDependency)
    → All (λ j. rank j ≤ rank m) pending
    → All (λ d. has_key d.key pending ≡ true) ds
    → All (λ d. rank m < rank d.key) ds
    → ds ≡ []
none_above rank m pending [] a c b = refl
none_above rank m pending (d ∷ ds) a c b =
    absurd (omega (arith, b.0, All-has_key (λ j. rank j ≤ rank m) d.key pending c.0 a))
