-- ===== src/Memory/Claims.antt =====
-- How crates/kanbei-memory/src/types.rs makes provenances and edges, and derives the status of a claim.
use kanbei.Base.{
  ℕ, Bool, false, not, ◌&&◌, ◌||◌, Option, none, some, List, [], ◌∷◌, any, if◌then◌else◌, ◌==◌, ltb,
  length, is_empty, is_some, contains,
}
use kanbei.Objects.{Bytes}
use kanbei.Memory.Types.{
  ClaimProvenance, ClaimEdge, EdgeKind, is_supersedes, is_applies_to, MemoryResult, ok, err,
  invalid_input, promotion_excerpt_max, edge_schema,
}

-- `ClaimProvenance::new_ordinary`.
unfoldable pub new_ordinary : ℕ → ℕ → ClaimProvenance
new_ordinary session event = record {
  session = session;
  event = event;
  source_claims = [];
  evidence_excerpt = [];
}

-- `ClaimProvenance::new_promotion`.
unfoldable pub new_promotion : ℕ → ℕ → List ℕ → Bytes → MemoryResult ClaimProvenance
new_promotion session event source_claims excerpt =
    if ltb promotion_excerpt_max (length excerpt)
    then err invalid_input
    else ok (record {
      session = session;
      event = event;
      source_claims = source_claims;
      evidence_excerpt = excerpt;
    })

-- `ClaimEdge::new`.
unfoldable pub new_edge :
    ℕ → Option ℕ → EdgeKind → List ℕ → ClaimProvenance → MemoryResult ClaimEdge
unfolding is_supersedes is_applies_to
new_edge source target kind entity_keys provenance =
    let edge : ClaimEdge = record {
      schema = edge_schema;
      from_claim = source;
      to_claim = target;
      kind = kind;
      entity_keys = entity_keys;
      provenance = provenance;
    } in
    if not (is_some target) && not (is_supersedes kind)
    then err invalid_input
    else if is_applies_to kind
    then (if is_empty entity_keys then err invalid_input else ok edge)
    else if not (is_empty entity_keys)
    then err invalid_input
    else ok edge

pub data ValidationStatus : Type 0 where
  proposed : ValidationStatus
  approved : ValidationStatus
  active : ValidationStatus
  superseded : ValidationStatus
  retracted : ValidationStatus

-- The first edge that supersedes the claim.
unfoldable pub find_superseding : ℕ → List ClaimEdge → Option ClaimEdge
unfolding is_supersedes
find_superseding claim_id [] = none
find_superseding claim_id (e ∷ es) =
    let rest = find_superseding claim_id es in
    if e.from_claim == claim_id && is_supersedes e.kind then some e else rest

-- `edge.to == Some(claim_id)`.
unfoldable pub targets : ℕ → Option ℕ → Bool
targets claim_id none = false
targets claim_id (some to) = to == claim_id

unfoldable pub derive_validation_status : ℕ → List ℕ → List ClaimEdge → ValidationStatus
unfolding find_superseding targets any
derive_validation_status claim_id folded edges = elim (find_superseding claim_id edges) [
  | some edge ↦ if is_some edge.to_claim then superseded else retracted
  | none ↦
      if contains claim_id folded
      then active
      else if any (λ e. targets claim_id e.to_claim || (e.from_claim == claim_id)) edges
      then approved
      else proposed
]
