-- ===== src/Memory/Growth.antt =====
-- What the fold of crates/kanbei-memory/src/actor.rs reads from a store, it reads from any store that has grown.
use kanbei.Base.{
  ℕ, zero, suc, ◌≡◌, inl, inr, ◌||◌, Option, none, some, List, [], ◌∷◌, arith, Bool-cases,
  Option-cases,
}
use kanbei.Base.Map.{lookup-insert}
use kanbei.Objects.{Bytes, ObjectStore, exists, install, get}
use kanbei.Memory.Types.{RootManifest, ok, ◌>>=◌, Codec, bind-ok}
use kanbei.Memory.Fold.{
  Folding, has, take_out, load, load_manifest, walk, add_claim, add_edge, retract, add_claims,
  add_edges, retract_all, apply_manifest, apply_all,
}

-- What the one store loads, the other loads too.
abbrev pub Grows : Codec → ObjectStore → ObjectStore → Type 0
Grows c s t = (d : ℕ) (b : Bytes) → load c s d ≡ ok b → load c t d ≡ ok b

module _ (c : Codec) (s t : ObjectStore) (grows : Grows c s t) where
  load_manifest-grows :
      (d : ℕ) (m : RootManifest) → load_manifest c s d ≡ ok m → load_manifest c t d ≡ ok m
  unfolding load_manifest
  load_manifest-grows d m h = let (b, e, k) = bind-ok (load c s d) _ h in rw (grows d b e) k

  pub walk-grows :
      (fuel : ℕ) (root : Option ℕ) (ms : List (ℕ × RootManifest))
      → walk c s fuel root ≡ ok ms
      → walk c t fuel root ≡ ok ms
  unfolding walk
  walk-grows zero none ms h = h
  walk-grows zero (some d) ms h = absurd (cc)
  walk-grows (suc fuel) none ms h = h
  walk-grows (suc fuel) (some d) ms h =
      let (m, e, k) = bind-ok (load_manifest c s d) _ h in
      let (older, f, l) = bind-ok (walk c s fuel m.parent) _ k in
      rw (load_manifest-grows d m e, walk-grows fuel m.parent older f) l

  add_claim-grows :
      (d : ℕ) (st st' : Folding) → add_claim c s d st ≡ ok st' → add_claim c t d st ≡ ok st'
  unfolding add_claim
  add_claim-grows d st st' h = elim (Bool-cases (has d st.claims || has d st.retracted)) [
    | inl e ↦ rw e (rw e at h)
    | inr e ↦ let (b, f, k) = bind-ok (load c s d) _ (rw e at h) in rw (e, grows d b f) k
  ]

  add_edge-grows :
      (d : ℕ) (st st' : Folding) → add_edge c s d st ≡ ok st' → add_edge c t d st ≡ ok st'
  unfolding add_edge
  add_edge-grows d st st' h = elim (Bool-cases (has d st.edges)) [
    | inl e ↦ rw e (rw e at h)
    | inr e ↦ let (b, f, k) = bind-ok (load c s d) _ (rw e at h) in rw (e, grows d b f) k
  ]

  retract-grows : (d : ℕ) (st st' : Folding) → retract c s d st ≡ ok st' → retract c t d st ≡ ok st'
  unfolding retract
  retract-grows d st st' h = elim (Bool-cases (has d st.retracted)) [
    | inl e ↦ rw e (rw e at h)
    | inr e ↦ elim (Option-cases (take_out d st.claims)) [
      | inr (p, g) ↦ rw (e, g) (rw (e, g) at h)
      | inl g ↦ let (b, f, k) = bind-ok (load c s d) _ (rw (e, g) at h) in rw (e, g, grows d b f) k
    ]
  ]

  add_claims-grows :
      (ds : List ℕ) (st st' : Folding)
      → add_claims c s ds st ≡ ok st'
      → add_claims c t ds st ≡ ok st'
  unfolding add_claims
  add_claims-grows [] st st' h = h
  add_claims-grows (d ∷ ds) st st' h =
      let (u, e, k) = bind-ok (add_claim c s d st) _ h in
      rw (add_claim-grows d st u e) (add_claims-grows ds u st' k)

  add_edges-grows :
      (ds : List ℕ) (st st' : Folding) → add_edges c s ds st ≡ ok st' → add_edges c t ds st ≡ ok st'
  unfolding add_edges
  add_edges-grows [] st st' h = h
  add_edges-grows (d ∷ ds) st st' h =
      let (u, e, k) = bind-ok (add_edge c s d st) _ h in
      rw (add_edge-grows d st u e) (add_edges-grows ds u st' k)

  retract_all-grows :
      (ds : List ℕ) (st st' : Folding)
      → retract_all c s ds st ≡ ok st'
      → retract_all c t ds st ≡ ok st'
  unfolding retract_all
  retract_all-grows [] st st' h = h
  retract_all-grows (d ∷ ds) st st' h =
      let (u, e, k) = bind-ok (retract c s d st) _ h in
      rw (retract-grows d st u e) (retract_all-grows ds u st' k)

  pub apply_manifest-grows :
      (m : RootManifest) (st st' : Folding)
      → apply_manifest c s m st ≡ ok st'
      → apply_manifest c t m st ≡ ok st'
  unfolding apply_manifest
  apply_manifest-grows m st st' h =
      let (v, f, k) =
        bind-ok (add_claims c s m.added_claims st >>= add_edges c s m.added_edges)
          (retract_all c s m.retracted) h in
      let (u, e, g) = bind-ok (add_claims c s m.added_claims st) (add_edges c s m.added_edges) f in
      rw (add_claims-grows m.added_claims st u e, add_edges-grows m.added_edges u v g)
        (retract_all-grows m.retracted v st' k)

  pub apply_all-grows :
      (ms : List (ℕ × RootManifest)) (st : Folding)
      → apply_all c s ms ≡ ok st
      → apply_all c t ms ≡ ok st
  unfolding apply_all
  apply_all-grows [] st h = h
  apply_all-grows ((d, m) ∷ ms) st h =
      let (u, e, k) = bind-ok (apply_all c s ms) _ h in
      rw (apply_all-grows ms u e) (apply_manifest-grows m u st k)

-- An install leaves every object as it was.
pub install-Grows : (c : Codec) (s : ObjectStore) (b : Bytes) → Grows c s (install c.hash s b).0
unfolding load get install exists
install-Grows c s b d x h = ground (arith, h, lookup-insert (c.hash b) d b s.objects)
