-- ===== src/Memory/Proposing.antt =====
-- What a proposal of crates/kanbei-memory/src/actor.rs does to a scope, on every path.
use kanbei.Base.{
  ℕ, ◌++◌, ◌≡◌, ◌⊎◌, refl, sym, ap, subst, ◌∙◌, inl, inr, true, false, Option, none, some, List, [],
  ◌∷◌, ◌==◌, All-mono, Option-cases, arith,
}
use mathlib.Core.List.{append-nil}
use kanbei.Base.Map.{lookup, lookup-insert}
use kanbei.Objects.{Bytes, ObjectStore, InstallResult, install, exists, get}
use kanbei.Memory.Types.{
  MemoryScope, RootManifest, IdempotencyKey, MemoryTransition, ok, Codec, Lawful,
}
use kanbei.Memory.Fold.{load, load_manifest}
use kanbei.Memory.Growth.{Grows}
use kanbei.Memory.Check.{MemoryRootActor, same_root, seen}
use kanbei.Memory.Actor.{Call, committed}
use kanbei.Memory.Scan.{ScopeDir, LogScan, no_scan, note, adopt, unopened}
use kanbei.Memory.Admitting.{Admitted}
use kanbei.Memory.Loading.{ClaimLoads, EdgeLoads}
use kanbei.Memory.Folding.{ClaimLoads-Grows, EdgeLoads-Grows}
use kanbei.Memory.Rereading.{noted, noted-append, actor_at, LogHolds, Behind}
use kanbei.Memory.Lineage.{
  keys_of, IsLinear, IsLinear-snoc, KeysOnce, KeysOnce-snoc, map-snoc, actor_at-head, actor_at-keys,
  actor_at-scope,
}
use kanbei.Memory.Contents.{StoreHolds, StoreHolds-Grows, StoreHolds-snoc, fold_of, actor_at-fold}

-- The directory of a scope holds the transitions: its log reads as them, its store has their manifests, each
-- expects the root of the one before, and no key stands twice.
pub record MemoryHolds (c : Codec) (d : ScopeDir) (ts : List MemoryTransition) : Type 0 where
  pub log : LogHolds c d.file ts
  pub store : StoreHolds c d.store ts
  pub linear : IsLinear none ts
  pub once : KeysOnce (keys_of ts)

-- An object of the store with the digest of the bytes has the bytes.
abbrev pub Uncollided : Codec → ObjectStore → Bytes → Type 0
Uncollided c s b = (x : Bytes) → lookup (c.hash b) s.objects ≡ some x → x ≡ b

-- A call leaves the transitions, or them and its own; it records its own where it answers that it committed.
pub record Settled (c : Codec) (ts : List MemoryTransition) (t : MemoryTransition) (r : Call)
    : Type 0 where
  pub after : List MemoryTransition
  pub either : (after ≡ ts) ⊎ (after ≡ ts ++ t ∷ [])
  pub holds : MemoryHolds c r.dir after
  pub behind : Behind r.actor after
  pub recorded :
      (id root : ℕ)
      → r.answer ≡ ok (committed id root)
      → (after ≡ ts ++ t ∷ []) × (id ≡ t.transition_id) × (root ≡ t.accepted_new_root)

pub Behind-at : (scope : MemoryScope) (ts : List MemoryTransition) → Behind (actor_at scope ts) ts
Behind-at scope ts = record {
  known = ts;
  later = [];
  split = sym (append-nil ts);
  is = ap (λ s. actor_at s ts) (sym (actor_at-scope scope ts));
}

same_root-eq : (x y : Option ℕ) → same_root x y ≡ true → x ≡ y
unfolding same_root
same_root-eq none none h = refl
same_root-eq none (some b) h = absurd (cc)
same_root-eq (some a) none h = absurd (cc)
same_root-eq (some a) (some b) h = ground (arith, h)

-- The actor that notes one transition more.
abbrev pub knows : MemoryTransition → MemoryRootActor → MemoryRootActor
knows t a = record a {
  head = some t.accepted_new_root;
  head_transition = some t.transition_id;
  seen_keys = a.seen_keys ++ t.idempotency_key ∷ [];
  origins = a.origins ++ (t.origin_session, t.transition_id) ∷ [];
}

adopt-note :
    (last : Option (ℕ × ℕ)) (keys : List IdempotencyKey) (origins : List (ℕ × ℕ))
    (scope : MemoryScope) (t : MemoryTransition)
    → let scan : LogScan = record { last = last; keys = keys; origins = origins } in
      knows t (adopt scan (unopened scope)) ≡ adopt (note t scan) (unopened scope)
unfolding adopt note
adopt-note none keys origins scope t = refl
adopt-note (some (r, i)) keys origins scope t = refl

pub actor_at-snoc :
    (scope : MemoryScope) (ts : List MemoryTransition) (t : MemoryTransition)
    → knows t (actor_at scope ts) ≡ actor_at scope (ts ++ t ∷ [])
unfolding actor_at noted
actor_at-snoc scope ts t =
    let scan = noted no_scan ts in
    adopt-note scan.last scan.keys scan.origins scope t
    ∙ ap (λ s. adopt s (unopened scope)) (sym (noted-append no_scan ts (t ∷ [])))

module _ (c : Codec) where
  load-install :
      (s s' : ObjectStore) (b : Bytes) (root : ℕ)
      → install c.hash s b ≡ (s', InstallResult.installed root)
      → Uncollided c s b
      → (root ≡ c.hash b) × (load c s' root ≡ ok b)
  unfolding install exists load get
  load-install s s' b root h free = elim (Option-cases (lookup (c.hash b) s.objects)) [
    | inl e ↦
        (ground (arith, h, e), ground (arith, h, e, lookup-insert (c.hash b) root b s.objects))
    | inr (x, e) ↦ (ground (arith, h, e), ground (arith, h, e, free x e))
  ]

  -- A manifest that is installed is loaded.
  pub load_manifest-install :
      Lawful c
      → (s s' : ObjectStore) (m : RootManifest) (root : ℕ)
      → install c.hash s (c.write_manifest m) ≡ (s', InstallResult.installed root)
      → Uncollided c s (c.write_manifest m)
      → (m.schema == 1) ≡ true
      → (root ≡ c.hash (c.write_manifest m)) × (load_manifest c s' root ≡ ok m)
  unfolding load_manifest
  load_manifest-install lawful s s' m root h free schema =
      let (e, f) = load-install s s' (c.write_manifest m) root h free in
      (e, rw (f, lawful.manifest_read m, schema) refl)

  -- One transition more, once its manifest is installed and its frame is in the log.
  pub MemoryHolds-snoc :
      (d : ScopeDir) (s : ObjectStore) (scope : MemoryScope) (ts : List MemoryTransition)
      (t : MemoryTransition) (claims edges : List ℕ) (m : RootManifest)
      → MemoryHolds c d ts
      → Grows c d.store s
      → load_manifest c s t.accepted_new_root ≡ ok m
      → Admitted c d.store (actor_at scope ts) t claims edges m
      → StoreHolds c s (ts ++ t ∷ [])
        × IsLinear none (ts ++ t ∷ [])
        × KeysOnce (keys_of (ts ++ t ∷ []))
  MemoryHolds-snoc d s scope ts t claims edges m w grows here ad =
      let head = actor_at-head scope ts in
      let same = same_root-eq t.expected_old_root (actor_at scope ts).head ad.current in
      let gone =
        ad.retracted_load (fold_of c d.store ts w.store) (actor_at-fold c d.store scope ts w.store)
          w.store.loads.claims w.store.loads.retracted in
      (
        StoreHolds-snoc c s ts t m (StoreHolds-Grows c d.store s grows ts w.store) here
            (ad.parent ∙ head)
            (rw ad.claims_named (
              All-mono (ClaimLoads c d.store) (ClaimLoads c s) (ClaimLoads-Grows c d.store s grows)
                claims ad.claims_load))
            (rw ad.edges_named (
              All-mono (EdgeLoads c d.store) (EdgeLoads c s) (EdgeLoads-Grows c d.store s grows)
                edges ad.edges_load))
            (All-mono (ClaimLoads c d.store) (ClaimLoads c s) (ClaimLoads-Grows c d.store s grows)
              m.retracted gone),
        IsLinear-snoc none ts t w.linear (same ∙ head),
        subst KeysOnce (sym (map-snoc (λ (u : MemoryTransition). u.idempotency_key) ts t)) (
            KeysOnce-snoc (keys_of ts) t.idempotency_key w.once
              (subst (λ ks. seen t.idempotency_key ks ≡ false) (actor_at-keys scope ts) ad.unseen)),
      )
