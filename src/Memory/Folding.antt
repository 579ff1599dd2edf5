-- ===== src/Memory/Folding.antt =====
-- A manifest whose claims, edges and retractions the store holds can be folded: the loops of
-- `MemoryRootActor::fold` of crates/kanbei-memory/src/actor.rs.
use kanbei.Base.{
  ℕ, ◌++◌, ◌||◌, ◌≡◌, refl, subst, inl, inr, Option, some, List, [], ◌∷◌, ◌==◌, All, All-append,
  Bool-cases, Option-cases, arith,
}
use kanbei.Objects.{ObjectStore}
use kanbei.Memory.Types.{Claim, RootManifest, corrupt, MemoryResult, ok, or_error, Codec, bind-ok}
use kanbei.Memory.Fold.{
  Folding, has, take_out, load, add_claim, add_edge, retract, add_claims, add_edges, retract_all,
  apply_manifest,
}
use kanbei.Memory.Growth.{Grows}
use kanbei.Memory.Loading.{ClaimLoads, EdgeLoads, AllDigests}

-- The claims of a fold are read from the store.
pub record FoldLoads (c : Codec) (s : ObjectStore) (st : Folding) : Type 0 where
  pub claims : AllDigests (ClaimLoads c s) st.claims
  pub retracted : AllDigests (ClaimLoads c s) st.retracted

taken :
    (P : ℕ → Type 0) (xs ys : List (ℕ × Claim)) (y x : Claim)
    → ◌≡◌ {A = Option (Claim × List (ℕ × Claim))} (some (y, xs)) (some (x, ys))
    → AllDigests P xs
    → AllDigests P ys
taken P xs ys y x h a = subst (AllDigests P) (cc h) a

take_out-All :
    (P : ℕ → Type 0) (d : ℕ) (xs : List (ℕ × Claim)) (x : Claim) (ys : List (ℕ × Claim))
    → take_out d xs ≡ some (x, ys)
    → AllDigests P xs
    → AllDigests P ys
unfolding take_out
take_out-All P d [] x ys h a = absurd (cc)
take_out-All P d ((e, y) ∷ xs) x ys h a = elim (Bool-cases (e == d)) [
  | inl k ↦ taken P xs ys y x (rw k at h) a.1
  | inr k ↦ elim (Option-cases (take_out d xs)) [
    | inl f ↦ absurd (ground (arith, h, k, f))
    | inr ((z, zs), f) ↦
        taken P ((e, y) ∷ zs) ys z x (rw (k, f) at h) (a.0, take_out-All P d xs z zs f a.1)
  ]
]

pub ClaimLoads-Grows :
    (c : Codec) (s t : ObjectStore) → Grows c s t → (d : ℕ) → ClaimLoads c s d → ClaimLoads c t d
ClaimLoads-Grows c s t grows d (claim, e) =
    let (b, f, g) = bind-ok (load c s d) (λ x. or_error (c.read_claim x) corrupt) e in
    (claim, rw (grows d b f) g)

pub EdgeLoads-Grows :
    (c : Codec) (s t : ObjectStore) → Grows c s t → (d : ℕ) → EdgeLoads c s d → EdgeLoads c t d
EdgeLoads-Grows c s t grows d (edge, e) =
    let (b, f, g) = bind-ok (load c s d) (λ x. or_error (c.read_edge x) corrupt) e in
    (edge, rw (grows d b f) g)

module _ (c : Codec) (s : ObjectStore) where
  -- A step of the fold that succeeds and keeps its claims readable.
  abbrev Folds : MemoryResult Folding → Type 0
  Folds r = (st : Folding) × (r ≡ ok st) × FoldLoads c s st

  abbrev P : ℕ → Type 0
  P = ClaimLoads c s

  add_claim-Folds : (d : ℕ) (st : Folding) → P d → FoldLoads c s st → Folds (add_claim c s d st)
  unfolding add_claim
  add_claim-Folds d st p w = elim (Bool-cases (has d st.claims || has d st.retracted)) [
    | inl k ↦ (st, rw k refl, w)
    | inr k ↦
        let (b, f, g) = bind-ok (load c s d) (λ x. or_error (c.read_claim x) corrupt) p.1 in
        (
          record st { claims = st.claims ++ (d, p.0) ∷ [] },
          rw (k, f, g) refl,
          record {
            claims = All-append (λ x. P x.0) st.claims ((d, p.0) ∷ []) w.claims (p, tt);
            retracted = w.retracted;
          },
        )
  ]

  add_edge-Folds :
      (d : ℕ) (st : Folding) → EdgeLoads c s d → FoldLoads c s st → Folds (add_edge c s d st)
  unfolding add_edge
  add_edge-Folds d st p w = elim (Bool-cases (has d st.edges)) [
    | inl k ↦ (st, rw k refl, w)
    | inr k ↦
        let (b, f, g) = bind-ok (load c s d) (λ x. or_error (c.read_edge x) corrupt) p.1 in
        (
          record st { edges = st.edges ++ (d, p.0) ∷ [] },
          rw (k, f, g) refl,
          record { claims = w.claims; retracted = w.retracted },
        )
  ]

  retract-Folds : (d : ℕ) (st : Folding) → P d → FoldLoads c s st → Folds (retract c s d st)
  unfolding retract
  retract-Folds d st p w = elim (Bool-cases (has d st.retracted)) [
    | inl k ↦ (st, rw k refl, w)
    | inr k ↦ elim (Option-cases (take_out d st.claims)) [
      | inr ((x, others), f) ↦ (
        record st { claims = others; retracted = st.retracted ++ (d, x) ∷ [] },
        rw (k, f) refl,
        record {
          claims = take_out-All P d st.claims x others f w.claims;
          retracted = All-append (λ y. P y.0) st.retracted ((d, x) ∷ []) w.retracted (p, tt);
        },
      )
      | inl f ↦
          let (b, g, l) = bind-ok (load c s d) (λ x. or_error (c.read_claim x) corrupt) p.1 in
          (
            record st { retracted = st.retracted ++ (d, p.0) ∷ [] },
            rw (k, f, g, l) refl,
            record {
              claims = w.claims;
              retracted = All-append (λ y. P y.0) st.retracted ((d, p.0) ∷ []) w.retracted (p, tt);
            },
          )
    ]
  ]

  add_claims-Folds :
      (ds : List ℕ) (st : Folding) → All P ds → FoldLoads c s st → Folds (add_claims c s ds st)
  unfolding add_claims
  add_claims-Folds [] st a w = (st, refl, w)
  add_claims-Folds (d ∷ ds) st a w =
      let (u, e, v) = add_claim-Folds d st a.0 w in rw e (add_claims-Folds ds u a.1 v)

  add_edges-Folds :
      (ds : List ℕ) (st : Folding)
      → All (EdgeLoads c s) ds
      → FoldLoads c s st
      → Folds (add_edges c s ds st)
  unfolding add_edges
  add_edges-Folds [] st a w = (st, refl, w)
  add_edges-Folds (d ∷ ds) st a w =
      let (u, e, v) = add_edge-Folds d st a.0 w in rw e (add_edges-Folds ds u a.1 v)

  retract_all-Folds :
      (ds : List ℕ) (st : Folding) → All P ds → FoldLoads c s st → Folds (retract_all c s ds st)
  unfolding retract_all
  retract_all-Folds [] st a w = (st, refl, w)
  retract_all-Folds (d ∷ ds) st a w =
      let (u, e, v) = retract-Folds d st a.0 w in rw e (retract_all-Folds ds u a.1 v)

  pub apply_manifest-Folds :
      (m : RootManifest) (st : Folding)
      → All P m.added_claims
      → All (EdgeLoads c s) m.added_edges
      → All P m.retracted
      → FoldLoads c s st
      → Folds (apply_manifest c s m st)
  unfolding apply_manifest
  apply_manifest-Folds m st a b r w =
      let (u, e, v) = add_claims-Folds m.added_claims st a w in
      let (x, f, y) = add_edges-Folds m.added_edges u b v in
      rw (e, f) (retract_all-Folds m.retracted x r y)
