-- ===== src/Memory/Durable.antt =====
-- What the answer of `MemoryRootActor::propose` of crates/kanbei-memory/src/actor.rs promises for the time after a
-- loss of power.
use kanbei.Base.{ℕ, ◌++◌, ◌≡◌, some, List, [], ◌∷◌, contains}
use kanbei.Memory.Types.{MemoryScope, MemoryTransition, ok, Codec}
use kanbei.Memory.Scan.{ScopeDir, open_actor, contains_root}
use kanbei.Memory.Rereading.{actor_at}
use kanbei.Memory.Lineage.{roots}

-- The promise of an answer that a transition is committed.
pub record Promised (c : Codec) (d : ScopeDir) (scope : MemoryScope) (ts : List MemoryTransition)
    (t : MemoryTransition) : Type 0 where
  pub opens : (open_actor c d scope).1 ≡ ok (actor_at scope (ts ++ t ∷ []))
  pub head : (actor_at scope (ts ++ t ∷ [])).head ≡ some t.accepted_new_root
  pub rooted :
      (x : ℕ)
      → contains_root c (open_actor c d scope).0 (actor_at scope (ts ++ t ∷ [])) x
        ≡ contains x (roots ts ++ t.accepted_new_root ∷ [])
