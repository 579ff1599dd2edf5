-- ===== src/Memory/Check.antt =====
-- The validation of a proposal, steps 1 to 7 of `MemoryRootActor::propose` of
-- crates/kanbei-memory/src/actor.rs.
use kanbei.Base.{
  ℕ, ◌++◌, Bool, true, false, not, ◌&&◌, ◌||◌, Option, none, some, List, [], ◌∷◌, is_some,
  if◌then◌else◌, ◌==◌, length, contains, is_empty,
}
use kanbei.Base.Map.{Map, lookup, insert}
use kanbei.Capabilities.Types.{dedup}
use kanbei.Objects.{ObjectStore, sort}
use kanbei.Memory.Types.{
  MemoryScope, same_scope, Claim, is_supersedes, is_promoted_from, ClaimEdge, RootManifest,
  IdempotencyKey, same_key, TransitionKind, root_approval, promotion, MemoryTransition,
  duplicate_transition, invalid_origin, acyclic_violation, root_mismatch, invalid_input, corrupt,
  MemoryResult, ok, ◌>>=◌, ◌>>◌, ensure, or_error, RootFold, Codec, claim_schema, edge_schema,
  root_schema, transition_schema,
}
use kanbei.Memory.Fold.{load, fold}

-- The actor between its calls: the head and what it knows of the committed transitions.
pub record MemoryRootActor : Type 0 where
  pub scope : MemoryScope
  pub head : Option ℕ
  pub head_transition : Option ℕ
  pub seen_keys : List IdempotencyKey
  pub origins : List (ℕ × ℕ)

-- The two texts of an origin.
abbrev pub memory_root_approved : ℕ
memory_root_approved = 1

abbrev pub memory_promotion_approved : ℕ
memory_promotion_approved = 2

unfoldable pub expected_kind : TransitionKind → ℕ
expected_kind root_approval = memory_root_approved
expected_kind promotion = memory_promotion_approved

-- `seen_keys.contains`.
unfoldable pub seen : IdempotencyKey → List IdempotencyKey → Bool
unfolding same_key
seen k [] = false
seen k (j ∷ js) = same_key j k || seen k js

unfoldable pub same_root : Option ℕ → Option ℕ → Bool
same_root none none = true
same_root (some a) (some b) = a == b
same_root _ _ = false

-- Steps 1 to 3.
unfoldable pub check_origin : MemoryRootActor → MemoryTransition → MemoryResult (Unit {0})
unfolding same_scope seen expected_kind
check_origin a t =
    ensure (same_scope t.scope a.scope) invalid_input
    >> ensure (t.schema == transition_schema) invalid_input
    >> ensure (not (seen t.idempotency_key a.seen_keys)) (duplicate_transition t.idempotency_key)
    >> ensure (t.origin_kind == expected_kind t.kind) invalid_origin
    >> ensure (not (t.decision_digest == 0)) invalid_origin
    >> ensure (not (t.origin_session == 0)) invalid_origin
    >> ensure (not (t.origin_event == 0)) invalid_origin

-- The digests that the caller has installed.
unfoldable pub expected_orphans : List ℕ → List ℕ → List ℕ
expected_orphans installed [] = installed
expected_orphans installed (d ∷ ds) =
    expected_orphans (if contains d installed then installed else installed ++ d ∷ []) ds

-- The maps from identities of claims, filled in the order of the lists.
unfoldable pub insert_ids : List (ℕ × Claim) → Map ℕ → Map ℕ
insert_ids [] m = m
insert_ids ((d, claim) ∷ claims) m = insert_ids claims (insert claim.claim_id d m)

unfoldable pub insert_sources : List (ℕ × Claim) → Map Bool → Map Bool
insert_sources [] m = m
insert_sources ((d, claim) ∷ claims) m =
    insert_sources claims (insert claim.claim_id (not (is_empty claim.provenance.source_claims)) m)

-- `get(..).copied().unwrap_or(false)`.
unfoldable pub or_false : Option Bool → Bool
or_false none = false
or_false (some b) = b

-- The target of an edge is committed, or the source of a promotion.
unfoldable pub target_admitted : Map ℕ → Map Bool → ClaimEdge → Bool
unfolding or_false is_promoted_from
target_admitted committed sources e = elim e.to_claim [
  | none ↦ true
  | some to ↦
      is_some (lookup to committed)
      || (is_promoted_from e.kind && or_false (lookup e.from_claim sources))
]

-- Step 6.
unfoldable pub check_edges :
    Map ℕ → Map ℕ → Map Bool → List (ℕ × ClaimEdge) → MemoryResult (Unit {0})
unfolding target_admitted
check_edges committed added sources [] = ok tt
check_edges committed added sources ((d, e) ∷ es) =
    ensure (target_admitted committed sources e) (acyclic_violation e.from_claim)
    >> ensure (is_some (lookup e.from_claim committed) || is_some (lookup e.from_claim added))
        (acyclic_violation e.from_claim)
    >> check_edges committed added sources es

-- The claims that the new edges supersede.
unfoldable pub superseded_by : Map ℕ → List (ℕ × ClaimEdge) → List ℕ
unfolding is_supersedes
superseded_by ids [] = []
superseded_by ids ((d, e) ∷ es) =
    let rest = superseded_by ids es in
    if is_supersedes e.kind
    then elim (lookup e.from_claim ids) [ none ↦ rest | some claim ↦ claim ∷ rest ]
    else rest

-- What a proposal comes to, before anything is written: a manifest to commit, or a competing head.
pub data Verdict : Type 0 where
  accepted : RootManifest → Verdict
  stale : Option ℕ → Option ℕ → List ℕ → Verdict

module _ (c : Codec) (s : ObjectStore) where
  -- Step 5.
  unfoldable pub load_claims : List ℕ → MemoryResult (List (ℕ × Claim))
  unfolding load
  load_claims [] = ok []
  load_claims (d ∷ ds) = do
    bytes ← load c s d
    claim ← or_error (c.read_claim bytes) corrupt
    ensure (claim.schema == claim_schema) corrupt
    rest ← load_claims ds
    ok ((d, claim) ∷ rest)

  unfoldable pub load_edges : List ℕ → MemoryResult (List (ℕ × ClaimEdge))
  unfolding load
  load_edges [] = ok []
  load_edges (d ∷ ds) = do
    bytes ← load c s d
    edge ← or_error (c.read_edge bytes) corrupt
    ensure (edge.schema == edge_schema) corrupt
    rest ← load_edges ds
    ok ((d, edge) ∷ rest)

  -- The delta of step 7.
  unfoldable pub manifest_of :
      MemoryRootActor
      → MemoryTransition
      → List ℕ
      → List ℕ
      → Map ℕ
      → List (ℕ × ClaimEdge)
      → RootManifest
  unfolding superseded_by sort dedup
  manifest_of a t claims edges ids added_edges = record {
    schema = root_schema;
    parent = a.head;
    scope = a.scope;
    added_claims = claims;
    added_edges = edges;
    retracted = dedup (sort (superseded_by ids added_edges));
    transition_id = t.transition_id;
  }

  -- Steps 5 to 7, with the fold of the head.
  unfoldable pub build :
      MemoryRootActor
      → MemoryTransition
      → List ℕ
      → List ℕ
      → RootFold
      → List (ℕ × Claim)
      → List (ℕ × ClaimEdge)
      → MemoryResult RootManifest
  unfolding insert_ids insert_sources check_edges manifest_of
  build a t claims edges folded added_claims added_edges = do
    let committed = insert_ids (folded.claims ++ folded.retracted) []
    check_edges committed (insert_ids added_claims [])
        (insert_sources (folded.claims ++ folded.retracted ++ added_claims) []) added_edges
    let m = manifest_of a t claims edges (insert_ids added_claims committed) added_edges
    ensure (c.hash (c.write_manifest m) == t.accepted_new_root)
        (root_mismatch t.accepted_new_root (c.hash (c.write_manifest m)))
    ok m

  unfoldable pub admit : MemoryRootActor → MemoryTransition → List ℕ → List ℕ → MemoryResult Verdict
  unfolding load_claims load_edges fold build
  admit a t claims edges = do
    added_claims ← load_claims claims
    added_edges ← load_edges edges
    folded ← fold c s (length a.seen_keys) a.head
    m ← build a t claims edges folded added_claims added_edges
    ok (accepted m)

  -- Steps 1 to 7.
  unfoldable pub check : MemoryRootActor → MemoryTransition → List ℕ → List ℕ → MemoryResult Verdict
  unfolding check_origin same_root expected_orphans admit
  check a t claims edges =
      check_origin a t
      >> (if same_root t.expected_old_root a.head
          then admit a t claims edges
          else ok (stale t.expected_old_root a.head (expected_orphans claims edges)))
