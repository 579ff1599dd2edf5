-- ===== src/Capabilities/Retire.antt =====
-- Retirement of a generation in crates/kanbei-capabilities/src/lib.rs.
use kanbei.Base.{ℕ, ◌≡◌, refl, false, not, none, List, [], ◌∷◌, ◌==◌, keep, arith}
use kanbei.Capabilities.Types.{Principal, Capability, Grant, Broker, err, no_grant}
use kanbei.Capabilities.Grants.{covers, find_grant, of_generation, retire_generation}
use kanbei.Capabilities.Check.{check}

find_grant-retired :
    (generation : ℕ) (p : Principal) (resource : ℕ) (gs : List Grant)
    → p.generation ≡ generation
    → find_grant p resource (keep (λ g. not (of_generation generation g)) gs) ≡ none
unfolding find_grant covers of_generation keep
find_grant-retired generation p resource [] h = refl
find_grant-retired generation p resource (g ∷ gs) h =
    ground (arith, find_grant-retired generation p resource gs h)

-- Once its generation is retired, a caller has no grant left: each of its checks is refused for want of
-- a grant, with the broker left as it was.
pub check-retire_generation :
    (derive : Grant → ℕ) (b : Broker) (p : Principal) (want : Capability) (policy now : ℕ)
    → check derive (retire_generation p.generation b) p want policy now
      ≡ (retire_generation p.generation b, err (no_grant want.resource p))
unfolding check retire_generation
check-retire_generation derive b p want policy now =
    ground (arith, find_grant-retired p.generation p want.resource b.grants refl)

find_grant-keeps :
    (generation : ℕ) (p : Principal) (resource : ℕ) (gs : List Grant)
    → (p.generation == generation) ≡ false
    → find_grant p resource (keep (λ g. not (of_generation generation g)) gs)
      ≡ find_grant p resource gs
unfolding find_grant covers of_generation keep
find_grant-keeps generation p resource [] h = refl
find_grant-keeps generation p resource (g ∷ gs) h =
    ground (arith, find_grant-keeps generation p resource gs h)

-- Retirement takes no grant from a caller of another generation.
pub find_grant-retire_generation :
    (generation : ℕ) (b : Broker) (p : Principal) (resource : ℕ)
    → (p.generation == generation) ≡ false
    → find_grant p resource (retire_generation generation b).grants ≡ find_grant p resource b.grants
unfolding retire_generation
find_grant-retire_generation generation b p resource h =
    find_grant-keeps generation p resource b.grants h
