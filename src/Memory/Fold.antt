-- ===== src/Memory/Fold.antt =====
-- `MemoryRootActor::fold` of crates/kanbei-memory/src/actor.rs. The loop along the parents takes fuel.
use kanbei.Base.{
  ℕ, zero, suc, ◌++◌, ◌||◌, Bool, false, Option, none, some, List, [], ◌∷◌, if◌then◌else◌, ◌==◌,
}
use kanbei.Objects.{Bytes, ObjectStore, ObjectResult, get}
use kanbei.Memory.Types.{
  Claim, ClaimEdge, RootManifest, RootFold, missing_object, corrupt, out_of_fuel, MemoryResult, ok,
  err, ◌>>=◌, ◌>>◌, ensure, or_error, Codec, root_schema,
}

-- The locals of the fold over the manifests.
pub record Folding : Type 0 where
  pub claims : List (ℕ × Claim)
  pub edges : List (ℕ × ClaimEdge)
  pub retracted : List (ℕ × Claim)

abbrev pub nothing_folded : Folding
nothing_folded = record { claims = []; edges = []; retracted = [] }

-- `iter().any(|(c, _)| c == d)`.
unfoldable pub has {ℓ} : {A : Type ℓ} → ℕ → List (ℕ × A) → Bool
has d [] = false
has d ((c, a) ∷ xs) = (c == d) || has d xs

-- `position` and `remove`: the first entry with the digest, and the others.
unfoldable pub take_out {ℓ} : {A : Type ℓ} → ℕ → List (ℕ × A) → Option (A × List (ℕ × A))
take_out d [] = none
take_out d ((c, a) ∷ xs) =
    let rest = take_out d xs in
    if c == d
    then some (a, xs)
    else elim rest [ none ↦ none | some (b, ys) ↦ some (b, (c, a) ∷ ys) ]

-- The history, the oldest root first.
unfoldable pub history : List (ℕ × RootManifest) → List ℕ
history [] = []
history ((d, m) ∷ older) = history older ++ d ∷ []

module _ (c : Codec) (s : ObjectStore) where
  -- An object that the store has in order.
  unfoldable pub load : ℕ → MemoryResult Bytes
  load d = elim (get c.hash s d) [
    | ObjectResult.ok bytes ↦ ok bytes
    | ObjectResult.err e ↦ err (missing_object d)
  ]

  unfoldable pub load_manifest : ℕ → MemoryResult RootManifest
  unfolding load
  load_manifest d = do
    bytes ← load d
    manifest ← or_error (c.read_manifest bytes) corrupt
    ensure (manifest.schema == root_schema) corrupt
    ok manifest

  -- The manifests from a root back to the first, the newest first.
  unfoldable pub walk : ℕ → Option ℕ → MemoryResult (List (ℕ × RootManifest))
  unfolding load_manifest
  walk zero none = ok []
  walk zero (some d) = err out_of_fuel
  walk (suc fuel) none = ok []
  walk (suc fuel) (some d) = do
    manifest ← load_manifest d
    older ← walk fuel manifest.parent
    ok ((d, manifest) ∷ older)

  unfoldable pub add_claim : ℕ → Folding → MemoryResult Folding
  unfolding load has
  add_claim d st = if has d st.claims || has d st.retracted then ok st else (do
    bytes ← load d
    claim ← or_error (c.read_claim bytes) corrupt
    ok (record st { claims = st.claims ++ (d, claim) ∷ [] }))

  unfoldable pub add_edge : ℕ → Folding → MemoryResult Folding
  unfolding load has
  add_edge d st = if has d st.edges then ok st else (do
    bytes ← load d
    edge ← or_error (c.read_edge bytes) corrupt
    ok (record st { edges = st.edges ++ (d, edge) ∷ [] }))

  -- A retraction of a claim that is not active stays visible.
  unfoldable pub retract : ℕ → Folding → MemoryResult Folding
  unfolding load has take_out
  retract d st = if has d st.retracted then ok st else elim (take_out d st.claims) [
    | some (claim, others) ↦
        ok (record st { claims = others; retracted = st.retracted ++ (d, claim) ∷ [] })
    | none ↦ (do
      bytes ← load d
      claim ← or_error (c.read_claim bytes) corrupt
      ok (record st { retracted = st.retracted ++ (d, claim) ∷ [] }))
  ]

  unfoldable pub add_claims : List ℕ → Folding → MemoryResult Folding
  unfolding add_claim
  add_claims [] st = ok st
  add_claims (d ∷ ds) st = add_claim d st >>= add_claims ds

  unfoldable pub add_edges : List ℕ → Folding → MemoryResult Folding
  unfolding add_edge
  add_edges [] st = ok st
  add_edges (d ∷ ds) st = add_edge d st >>= add_edges ds

  unfoldable pub retract_all : List ℕ → Folding → MemoryResult Folding
  unfolding retract
  retract_all [] st = ok st
  retract_all (d ∷ ds) st = retract d st >>= retract_all ds

  -- One round of the loop over the manifests.
  unfoldable pub apply_manifest : RootManifest → Folding → MemoryResult Folding
  unfolding add_claims add_edges retract_all
  apply_manifest m st =
      add_claims m.added_claims st >>= add_edges m.added_edges >>= retract_all m.retracted

  -- The manifests are applied in reverse.
  unfoldable pub apply_all : List (ℕ × RootManifest) → MemoryResult Folding
  unfolding apply_manifest
  apply_all [] = ok nothing_folded
  apply_all ((d, m) ∷ older) = apply_all older >>= apply_manifest m

  unfoldable pub fold : ℕ → Option ℕ → MemoryResult RootFold
  unfolding walk apply_all history
  fold fuel root = do
    manifests ← walk fuel root
    st ← apply_all manifests
    ok (record {
      root = root;
      claims = st.claims;
      edges = st.edges;
      retracted = st.retracted;
      history = history manifests;
    })
