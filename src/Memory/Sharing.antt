-- ===== src/Memory/Sharing.antt =====
-- A proposal to the actor of crates/kanbei-memory/src/actor.rs that shares its directory with others.
use kanbei.Base.{[], ℕ, ◌+◌, ◌<◌, ◌≡◌, refl, sym, ap, subst, ◌∙◌, List, length, u64_mod}
use kanbei.Log.Types.{}
use kanbei.Memory.Types.{RootManifest, MemoryTransition, ok, Codec, Lawful}
use kanbei.Memory.Check.{MemoryRootActor, check}
use kanbei.Memory.Actor.{Moment, propose_with, propose}
use kanbei.Memory.Scan.{ScopeDir}
use kanbei.Memory.Admitting.{check-Admitted}
use kanbei.Memory.Rereading.{actor_at, reopened, Behind, refresh-Holds}
use kanbei.Memory.Lineage.{actor_at-scope}
use kanbei.Memory.Proposing.{MemoryHolds, Uncollided, Settled, Behind-at}
use kanbei.Memory.Settling.{decide-Settled}

-- A manifest with the digest of the new root collides with no object of the store.
abbrev pub Free : Codec → ScopeDir → MemoryTransition → Type 0
Free c d t =
    (m : RootManifest)
    → c.hash (c.write_manifest m) ≡ t.accepted_new_root
    → Uncollided c d.store (c.write_manifest m)

pub propose-Settled :
    (c : Codec) (lawful : Lawful c) (d : ScopeDir) (ts : List MemoryTransition)
    (a : MemoryRootActor) (t : MemoryTransition) (claims edges : List ℕ) (moment : Moment)
    → MemoryHolds c d ts
    → length ts + 2 < u64_mod
    → Behind a ts
    → Free c d t
    → Settled c ts t (propose c d a t claims edges moment)
unfolding propose propose_with
propose-Settled c lawful d ts a t claims edges moment w small b free =
    subst (λ p. Settled c ts t (propose_with c a t claims edges moment p))
      (sym (refresh-Holds c d ts w.log a b))
      (decide-Settled c lawful d ts w small a.scope t claims edges moment
        (check c d.store (actor_at a.scope ts) t claims edges) refl
        (λ m e. free m (check-Admitted c d.store (actor_at a.scope ts) t claims edges m e).root))

-- An actor proposes as one that has just been opened would, whatever it has missed.
pub propose-stale :
    (c : Codec) (d : ScopeDir) (ts : List MemoryTransition) (a : MemoryRootActor)
    (t : MemoryTransition) (claims edges : List ℕ) (moment : Moment)
    → MemoryHolds c d ts
    → Behind a ts
    → propose c d a t claims edges moment ≡ propose c d (actor_at a.scope ts) t claims edges moment
unfolding propose propose_with
propose-stale c d ts a t claims edges moment w b =
    ap (propose_with c a t claims edges moment) (refresh-Holds c d ts w.log a b)
    ∙ sym (
        ap (propose_with c (actor_at a.scope ts) t claims edges moment) (
          refresh-Holds c d ts w.log (actor_at a.scope ts) (Behind-at a.scope ts)
          ∙ ap
              (λ s. (
                record d { file = record d.file { tail = [] } },
                ok (actor_at s ts, reopened c d.file ts w.log d),
              ))
              (actor_at-scope a.scope ts)))
