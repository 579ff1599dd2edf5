-- ===== src/Memory/Admitting.antt =====
-- What the validation of `MemoryRootActor::propose` of crates/kanbei-memory/src/actor.rs has established where it
-- lets a transition pass.
use kanbei.Base.{
  ℕ, ◌≡◌, sym, ap, ◌∙◌, subst, inl, inr, ◌++◌, true, false, Option, List, [], ◌==◌, ==_iff, All,
  All-append, Bool-cases, length, arith,
}
use kanbei.Base.Map.{lookup-nil}
use kanbei.Objects.{ObjectStore, sort}
use kanbei.Memory.Types.{
  Claim, ClaimEdge, RootManifest, RootFold, MemoryTransition, MemoryResult, ok, ensure, ensure-ok,
  ok-inj, Codec, bind-ok, root_schema, transition_schema,
}
use kanbei.Memory.Fold.{fold}
use kanbei.Memory.Check.{
  MemoryRootActor, check_origin, same_root, seen, insert_ids, insert_sources, superseded_by,
  check_edges, load_claims, load_edges, manifest_of, build, admit, check, accepted, stale,
}
use kanbei.Memory.Loading.{
  ClaimLoads, EdgeLoads, AllDigests, sort-All, dedup-All, AllValues, insert_ids-AllValues,
  superseded_by-All, load_claims-ok, load_edges-ok,
}

-- What is established of a transition that passes, with the manifest that is to be committed.
pub record Admitted (c : Codec) (s : ObjectStore) (a : MemoryRootActor) (t : MemoryTransition)
    (claims edges : List ℕ) (m : RootManifest) : Type 0 where
  pub current : same_root t.expected_old_root a.head ≡ true
  pub unseen : seen t.idempotency_key a.seen_keys ≡ false
  pub versioned : (t.schema == transition_schema) ≡ true
  pub schema : m.schema ≡ root_schema
  pub parent : m.parent ≡ a.head
  pub root : c.hash (c.write_manifest m) ≡ t.accepted_new_root
  pub claims_named : m.added_claims ≡ claims
  pub edges_named : m.added_edges ≡ edges
  pub claims_load : All (ClaimLoads c s) claims
  pub edges_load : All (EdgeLoads c s) edges
  pub retracted_load :
      (folded : RootFold)
      → fold c s (length a.seen_keys) a.head ≡ ok folded
      → AllDigests (ClaimLoads c s) folded.claims
      → AllDigests (ClaimLoads c s) folded.retracted
      → All (ClaimLoads c s) m.retracted

check_origin-unseen :
    (a : MemoryRootActor) (t : MemoryTransition)
    → check_origin a t ≡ ok tt
    → (seen t.idempotency_key a.seen_keys ≡ false) × ((t.schema == transition_schema) ≡ true)
unfolding check_origin
check_origin-unseen a t h = (ground (arith, h), ground (arith, h))

stale-accepted :
    (x y : Option ℕ) (ds : List ℕ) (m : RootManifest)
    → MemoryResult.ok (stale x y ds) ≡ ok (accepted m)
    → ⊥
stale-accepted x y ds m h = cc

accepted-inj : (m n : RootManifest) → MemoryResult.ok (accepted m) ≡ ok (accepted n) → m ≡ n
accepted-inj m n h = cc

module _ (c : Codec) (s : ObjectStore) (a : MemoryRootActor) (t : MemoryTransition)
    (claims edges : List ℕ) where
  retracted-All :
      (folded : RootFold) (cs : List (ℕ × Claim)) (es : List (ℕ × ClaimEdge))
      → AllDigests (ClaimLoads c s) folded.claims
      → AllDigests (ClaimLoads c s) folded.retracted
      → AllDigests (ClaimLoads c s) cs
      → let ids = insert_ids cs (insert_ids (folded.claims ++ folded.retracted) []) in
        All (ClaimLoads c s) (manifest_of c s a t claims edges ids es).retracted
  unfolding manifest_of
  retracted-All folded cs es p q r =
      let P = ClaimLoads c s in
      let ids = insert_ids cs (insert_ids (folded.claims ++ folded.retracted) []) in
      let values : AllValues P ids =
        insert_ids-AllValues P cs (insert_ids (folded.claims ++ folded.retracted) []) r (
          insert_ids-AllValues P (folded.claims ++ folded.retracted) []
            (All-append (λ x. P x.0) folded.claims folded.retracted p q)
            (λ k d e. absurd (cc (lookup-nil k, e)))) in
      dedup-All P (sort (superseded_by ids es))
        (sort-All P (superseded_by ids es) (superseded_by-All P ids es values))

  build-ok :
      (folded : RootFold) (cs : List (ℕ × Claim)) (es : List (ℕ × ClaimEdge)) (m : RootManifest)
      → build c s a t claims edges folded cs es ≡ ok m
      → (manifest_of c s a t claims edges
            (insert_ids cs (insert_ids (folded.claims ++ folded.retracted) []))
            es
          ≡ m)
        × (c.hash (c.write_manifest m) ≡ t.accepted_new_root)
  unfolding build
  build-ok folded cs es m h =
      let committed = insert_ids (folded.claims ++ folded.retracted) [] in
      let n = manifest_of c s a t claims edges (insert_ids cs committed) es in
      let (u, e, k) =
        bind-ok
          (check_edges committed (insert_ids cs [])
            (insert_sources (folded.claims ++ folded.retracted ++ cs) []) es)
          _ h in
      let (v, f, l) = bind-ok (ensure (c.hash (c.write_manifest n) == t.accepted_new_root) _) _ k in
      let same = ok-inj l in
      (
        same,
        subst (λ x. c.hash (c.write_manifest x) ≡ t.accepted_new_root) same
            ((==_iff (c.hash (c.write_manifest n)) t.accepted_new_root).0 (ensure-ok _ _ f)),
      )

  pub check-Admitted :
      (m : RootManifest)
      → check c s a t claims edges ≡ ok (accepted m)
      → Admitted c s a t claims edges m
  unfolding check admit manifest_of
  check-Admitted m h = elim (Bool-cases (same_root t.expected_old_root a.head)) [
    | inr differs ↦
        let (u, e, k) = bind-ok (check_origin a t) _ (rw differs at h) in
        absurd (stale-accepted _ _ _ m k)
    | inl current ↦
        let (u, e, k) = bind-ok (check_origin a t) _ (rw current at h) in
        let (cs, f, l) = bind-ok (load_claims c s claims) _ k in
        let (es, g, n) = bind-ok (load_edges c s edges) _ l in
        let (folded, o, p) = bind-ok (fold c s (length a.seen_keys) a.head) _ n in
        let (x, q, r) = bind-ok (build c s a t claims edges folded cs es) _ p in
        let built = build-ok folded cs es m (q ∙ ap ok (accepted-inj x m r)) in
        let loaded = load_claims-ok c s claims cs f in
        record {
          current = current;
          unseen = (check_origin-unseen a t e).0;
          versioned = (check_origin-unseen a t e).1;
          schema = sym (ap (λ (y : RootManifest). y.schema) built.0);
          parent = sym (ap (λ (y : RootManifest). y.parent) built.0);
          root = built.1;
          claims_named = sym (ap (λ (y : RootManifest). y.added_claims) built.0);
          edges_named = sym (ap (λ (y : RootManifest). y.added_edges) built.0);
          claims_load = loaded.0;
          edges_load = load_edges-ok c s edges es g;
          retracted_load = λ again same claims_ok retracted_ok.
              let eq : folded ≡ again = ok-inj (sym o ∙ same) in
              subst (λ (y : RootManifest). All (ClaimLoads c s) y.retracted) built.0
                (retracted-All folded cs es
                  (subst (λ (y : RootFold). AllDigests (ClaimLoads c s) y.claims) (sym eq)
                    claims_ok)
                  (subst (λ (y : RootFold). AllDigests (ClaimLoads c s) y.retracted) (sym eq)
                    retracted_ok)
                  loaded.1);
        }
  ]
