-- ===== src/Memory/Loading.antt =====
-- The claims and edges that crates/kanbei-memory/src/actor.rs reads, and the digests it derives from them.
use kanbei.Base.{
  ℕ, ◌≡◌, subst, inl, inr, some, List, [], ◌∷◌, ◌==◌, leb, All, Bool-cases, Option-cases, arith,
}
use kanbei.Base.Map.{Map, lookup, insert, lookup-insert}
use kanbei.Capabilities.Types.{dedup}
use kanbei.Objects.{ObjectStore, sort, insert_sorted}
use kanbei.Memory.Types.{
  Claim, ClaimEdge, is_supersedes, corrupt, MemoryResult, ok, ◌>>=◌, ensure, ok-inj, or_error,
  Codec, bind-ok,
}
use kanbei.Memory.Fold.{load}
use kanbei.Memory.Check.{insert_ids, superseded_by, load_claims, load_edges}

-- The store has the object in order, and it reads as a claim, or as an edge.
abbrev pub read_claim_at : Codec → ObjectStore → ℕ → MemoryResult Claim
read_claim_at c s d = load c s d >>= λ b. or_error (c.read_claim b) corrupt

abbrev pub read_edge_at : Codec → ObjectStore → ℕ → MemoryResult ClaimEdge
read_edge_at c s d = load c s d >>= λ b. or_error (c.read_edge b) corrupt

abbrev pub ClaimLoads : Codec → ObjectStore → ℕ → Type 0
ClaimLoads c s d = (claim : Claim) × (read_claim_at c s d ≡ ok claim)

abbrev pub EdgeLoads : Codec → ObjectStore → ℕ → Type 0
EdgeLoads c s d = (edge : ClaimEdge) × (read_edge_at c s d ≡ ok edge)

-- The digests of the entries satisfy the predicate.
abbrev pub AllDigests {ℓ} : {A : Type ℓ} → (ℕ → Type 0) → List (ℕ × A) → Type 0
AllDigests P xs = All (λ p. P p.0) xs

module _ (P : ℕ → Type 0) where
  insert_sorted-All : (d : ℕ) (ds : List ℕ) → P d → All P ds → All P (insert_sorted d ds)
  unfolding insert_sorted
  insert_sorted-All d [] p h = (p, h)
  insert_sorted-All d (e ∷ es) p h = elim (Bool-cases (leb d e)) [
    | inl k ↦ rw k (p, h)
    | inr k ↦ rw k (h.0, insert_sorted-All d es p h.1)
  ]

  pub sort-All : (ds : List ℕ) → All P ds → All P (sort ds)
  unfolding sort
  sort-All [] h = h
  sort-All (d ∷ ds) h = insert_sorted-All d (sort ds) h.0 (sort-All ds h.1)

  pub dedup-All : (ds : List ℕ) → All P ds → All P (dedup ds)
  unfolding dedup
  dedup-All [] h = h
  dedup-All (d ∷ []) h = h
  dedup-All (d ∷ e ∷ es) h = elim (Bool-cases (d == e)) [
    | inl k ↦ rw k (dedup-All (e ∷ es) h.1)
    | inr k ↦ rw k (h.0, dedup-All (e ∷ es) h.1)
  ]

  -- The values of a map of identities come from the lists that filled it.
  abbrev pub AllValues : Map ℕ → Type 0
  AllValues m = (k d : ℕ) → lookup k m ≡ some d → P d

  insert-AllValues : (k d : ℕ) (m : Map ℕ) → P d → AllValues m → AllValues (insert k d m)
  insert-AllValues k d m p h j e f = elim (Bool-cases (k == j)) [
    | inl same ↦ subst P (cc (lookup-insert k j d m, f, same)) p
    | inr other ↦ h j e (ground (arith, lookup-insert k j d m, f, other))
  ]

  pub insert_ids-AllValues :
      (cs : List (ℕ × Claim)) (m : Map ℕ)
      → AllDigests P cs
      → AllValues m
      → AllValues (insert_ids cs m)
  unfolding insert_ids
  insert_ids-AllValues [] m a h = h
  insert_ids-AllValues ((d, claim) ∷ cs) m a h =
      insert_ids-AllValues cs (insert claim.claim_id d m) a.1
        (insert-AllValues claim.claim_id d m a.0 h)

  pub superseded_by-All :
      (ids : Map ℕ) (es : List (ℕ × ClaimEdge)) → AllValues ids → All P (superseded_by ids es)
  unfolding superseded_by
  superseded_by-All ids [] h = tt
  superseded_by-All ids ((d, e) ∷ es) h = elim (Bool-cases (is_supersedes e.kind)) [
    | inr k ↦ rw k (superseded_by-All ids es h)
    | inl k ↦ elim (Option-cases (lookup e.from_claim ids)) [
      | inl f ↦ rw (k, f) (superseded_by-All ids es h)
      | inr (claim, f) ↦ rw (k, f) (h e.from_claim claim f, superseded_by-All ids es h)
    ]
  ]

module _ (c : Codec) (s : ObjectStore) where
  pub load_claims-ok :
      (ds : List ℕ) (cs : List (ℕ × Claim))
      → load_claims c s ds ≡ ok cs
      → All (ClaimLoads c s) ds × AllDigests (ClaimLoads c s) cs
  unfolding load_claims
  load_claims-ok [] cs h = (tt, subst (AllDigests (ClaimLoads c s)) (ok-inj h) tt)
  load_claims-ok (d ∷ ds) cs h =
      let (b, e, k) = bind-ok (load c s d) _ h in
      let (claim, f, l) = bind-ok (or_error (c.read_claim b) corrupt) _ k in
      let (u, g, n) = bind-ok (ensure (claim.schema == 1) corrupt) _ l in
      let (rest, r, o) = bind-ok (load_claims c s ds) _ n in
      let loads : ClaimLoads c s d = (claim, rw e f) in
      let both = load_claims-ok ds rest r in
      ((loads, both.0), subst (AllDigests (ClaimLoads c s)) (ok-inj o) (loads, both.1))

  pub load_edges-ok :
      (ds : List ℕ) (es : List (ℕ × ClaimEdge)) → load_edges c s ds ≡ ok es → All (EdgeLoads c s) ds
  unfolding load_edges
  load_edges-ok [] es h = tt
  load_edges-ok (d ∷ ds) es h =
      let (b, e, k) = bind-ok (load c s d) _ h in
      let (edge, f, l) = bind-ok (or_error (c.read_edge b) corrupt) _ k in
      let (u, g, n) = bind-ok (ensure (edge.schema == 1) corrupt) _ l in
      let (rest, r, o) = bind-ok (load_edges c s ds) _ n in
      ((edge, rw e f), load_edges-ok ds rest r)
