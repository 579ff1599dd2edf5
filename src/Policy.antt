-- ===== src/Policy.antt =====
-- The retention gate of crates/kanbei-policy/src/lib.rs. A plugin is its `decide` and its name; reasons, messages
-- and names are numbers, and `prefixed` is the message with the plugin's name before it.
pub mod Builtins
pub mod Admitting
pub mod Examples
use kanbei.Base.{ℕ, ◌≡◌, Bool, true, false, ltb, Option, none, some, List, length, if◌then◌else◌}

pub data RetentionDecision : Type 0 where
  store : RetentionDecision
  transform : List ℕ → RetentionDecision
  drop : ℕ → RetentionDecision
  reject_execution : ℕ → RetentionDecision

pub data CandidateRole : Type 0 where
  model_context : CandidateRole
  tool_output : CandidateRole
  user_input : CandidateRole
  internal : CandidateRole

pub record Candidate : Type 0 where
  pub role : CandidateRole
  pub content : List ℕ
  pub replay_relevant : Bool
  pub sensitivity : Option ℕ
  pub media : Option ℕ

pub data PolicyError : Type 0 where
  oversized : ℕ → ℕ → PolicyError
  plugin_error : ℕ → PolicyError
  rejected_error : ℕ → PolicyError
  non_resumable_error : ℕ → PolicyError
  invalid_pattern : ℕ → PolicyError

pub data PolicyResult {ℓ} (A : Type ℓ) : Type ℓ where
  ok : A → PolicyResult A
  err : PolicyError → PolicyResult A

pub data Admission : Type 0 where
  stored : List ℕ → Admission
  dropped : ℕ → Admission
  non_resumable_boundary : ℕ → Admission
  rejected : ℕ → Admission

pub data BoundaryKind : Type 0 where
  non_resumable_kind : BoundaryKind
  rejected_kind : BoundaryKind

pub record BoundaryFact : Type 0 where
  pub kind : BoundaryKind
  pub reason : ℕ
  pub replay_relevant : Bool

abbrev pub Decide : Type 0
Decide = Candidate → PolicyResult RetentionDecision

pub record RetentionGate : Type 0 where
  pub decide : Decide
  pub prefixed : ℕ → ℕ
  pub replay_default : Bool
  pub max_candidate_bytes : ℕ

unfoldable pub gate_replay_relevant : RetentionGate → CandidateRole → Option Bool → Bool
gate_replay_relevant gate internal declared = false
gate_replay_relevant gate model_context none = gate.replay_default
gate_replay_relevant gate model_context (some b) = b
gate_replay_relevant gate tool_output none = gate.replay_default
gate_replay_relevant gate tool_output (some b) = b
gate_replay_relevant gate user_input none = gate.replay_default
gate_replay_relevant gate user_input (some b) = b

-- The decision, read with the relevance of the candidate.
unfoldable pub admission_of : List ℕ → Bool → RetentionDecision → Admission
admission_of content relevant store = stored content
admission_of content relevant (transform bytes) = stored bytes
admission_of content true (drop reason) = non_resumable_boundary reason
admission_of content false (drop reason) = dropped reason
admission_of content relevant (reject_execution reason) = rejected reason

unfoldable pub admit_decision :
    RetentionGate → Candidate → PolicyResult RetentionDecision → PolicyResult Admission
unfolding gate_replay_relevant admission_of
admit_decision gate candidate (ok decision) = ok (
    admission_of candidate.content
      (gate_replay_relevant gate candidate.role (some candidate.replay_relevant)) decision)
admit_decision gate candidate (err (plugin_error message)) =
    err (plugin_error (gate.prefixed message))
admit_decision gate candidate (err (non_resumable_error reason)) =
    ok (non_resumable_boundary reason)
admit_decision gate candidate (err (oversized bytes limit)) = err (oversized bytes limit)
admit_decision gate candidate (err (rejected_error reason)) = err (rejected_error reason)
admit_decision gate candidate (err (invalid_pattern p)) = err (invalid_pattern p)

unfoldable pub admit : RetentionGate → Candidate → PolicyResult Admission
unfolding admit_decision
admit gate candidate =
    if ltb gate.max_candidate_bytes (length candidate.content)
    then err (oversized (length candidate.content) gate.max_candidate_bytes)
    else admit_decision gate candidate (gate.decide candidate)

unfoldable pub boundary_fact : Admission → Option BoundaryFact
boundary_fact (non_resumable_boundary reason) =
    some (record { kind = non_resumable_kind; reason = reason; replay_relevant = true })
boundary_fact (rejected reason) =
    some (record { kind = rejected_kind; reason = reason; replay_relevant = false })
boundary_fact (stored bytes) = none
boundary_fact (dropped reason) = none
