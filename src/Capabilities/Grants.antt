-- ===== src/Capabilities/Grants.antt =====
-- Grants of crates/kanbei-capabilities/src/lib.rs: `add_grant`, `find_grant`, `retire_generation`.
-- `derive` is the digest of the canonical JSON of a grant's other fields (blake3 over serde_json).
use kanbei.Base.{
  ℕ, Bool, false, not, ◌&&◌, ◌||◌, ◌++◌, Option, none, some, List, [], ◌∷◌, if◌then◌else◌, ◌==◌,
  leb, is_some, keep, length,
}
use kanbei.Base.Map.{Map, lookup, remove}
use kanbei.Capabilities.Types.{
  Principal, Grant, Broker, BrokerResult, ok, err, stale_grant, expired, standing_requires_purpose,
  is_standing, same_run,
}

unfoldable pub is_expired : Option ℕ → ℕ → Bool
is_expired none now = false
is_expired (some e) now = leb e now

unfoldable pub covers : Principal → ℕ → Grant → Bool
unfolding same_run
covers p resource g =
    (g.principal.session == p.session)
    && (g.principal.generation == p.generation)
    && (not (is_some g.principal.run) || same_run g.principal.run p.run)
    && (g.module_generation == p.generation)
    && (g.capability.resource == resource)

-- `find_grant`: the first that covers.
unfoldable pub find_grant : Principal → ℕ → List Grant → Option Grant
unfolding covers
find_grant p resource [] = none
find_grant p resource (g ∷ gs) =
    let rest = find_grant p resource gs in if covers p resource g then some g else rest

unfoldable pub of_generation : ℕ → Grant → Bool
of_generation generation g =
    (g.principal.generation == generation) || (g.module_generation == generation)

unfoldable pub grants_for_generation : ℕ → Broker → List Grant
unfolding keep of_generation
grants_for_generation generation b = keep (of_generation generation) b.grants

unfoldable pub forget : List Grant → Map ℕ → Map ℕ
unfolding remove
forget [] spent = spent
forget (g ∷ gs) spent = forget gs (remove g.grant_digest spent)

unfoldable pub retire_generation : ℕ → Broker → Broker
unfolding keep of_generation forget
retire_generation generation b = record b {
  grants = keep (λ g. not (of_generation generation g)) b.grants;
  spent = forget (keep (of_generation generation) b.grants) b.spent;
}

-- `grants_version`, and the calls that a grant has used.
unfoldable pub grants_version : Broker → ℕ
grants_version b = length b.grants

unfoldable pub spent_of : Broker → Grant → ℕ
unfolding lookup
spent_of b g = elim (lookup g.grant_digest b.spent) [ none ↦ 0 | some n ↦ n ]

module _ (derive : Grant → ℕ) where
  -- `Grant::validate`.
  unfoldable pub validate : Grant → Bool
  validate g = derive g == g.grant_digest

  unfoldable pub add_grant : Grant → ℕ → Broker → Broker × BrokerResult {0} Unit
  unfolding validate is_expired is_standing
  add_grant g now b =
      if not (validate g)
      then (b, err (stale_grant g.grant_digest))
      else if is_expired g.expiry now
      then (b, err (expired g.capability.resource g.principal))
      else if is_standing g.scope && not (is_some g.purpose)
      then (b, err (standing_requires_purpose g.capability.resource))
      else (record b { grants = b.grants ++ g ∷ [] }, ok tt)
