-- ===== src/Memory/Types.antt =====
-- The data of crates/kanbei-memory/src/types.rs and error.rs. Identities, digests, names, principals and
-- labels are numbers, texts are bytes.
use kanbei.Base.{
  ℕ, ◌≡◌, ◌⊎◌, inl, inr, refl, Bool, true, false, ◌&&◌, Option, none, some, List, ◌==◌,
}
use kanbei.Core.Envelope.{Envelope}
use kanbei.Objects.{Bytes}
use kanbei.Log.Types.{Line, Meta, MetaBody, RecoveryError, AppendError}

abbrev pub claim_schema : ℕ
claim_schema = 1

abbrev pub edge_schema : ℕ
edge_schema = 1

abbrev pub root_schema : ℕ
root_schema = 1

abbrev pub transition_schema : ℕ
transition_schema = 1

abbrev pub promotion_excerpt_max : ℕ
promotion_excerpt_max = 4096

pub data MemoryScope : Type 0 where
  lifetime : MemoryScope
  project : ℕ → MemoryScope

unfoldable pub same_scope : MemoryScope → MemoryScope → Bool
same_scope lifetime lifetime = true
same_scope (project a) (project b) = a == b
same_scope _ _ = false

pub record ClaimProvenance : Type 0 where
  pub session : ℕ
  pub event : ℕ
  pub source_claims : List ℕ
  pub evidence_excerpt : Bytes

pub record Claim : Type 0 where
  pub schema : ℕ
  pub claim_id : ℕ
  pub kind : ℕ
  pub content : Bytes
  pub owner : ℕ
  pub visibility_scope : MemoryScope
  pub provenance : ClaimProvenance
  pub observed_at : Option ℕ
  pub valid_from : Option ℕ
  pub sensitivity : ℕ

pub data EdgeKind : Type 0 where
  evidence_for : EdgeKind
  supports : EdgeKind
  contradicts : EdgeKind
  supersedes : EdgeKind
  promoted_from : EdgeKind
  applies_to : EdgeKind

unfoldable pub is_supersedes : EdgeKind → Bool
is_supersedes supersedes = true
is_supersedes _ = false

unfoldable pub is_promoted_from : EdgeKind → Bool
is_promoted_from promoted_from = true
is_promoted_from _ = false

unfoldable pub is_applies_to : EdgeKind → Bool
is_applies_to applies_to = true
is_applies_to _ = false

pub record ClaimEdge : Type 0 where
  pub schema : ℕ
  pub from_claim : ℕ
  pub to_claim : Option ℕ
  pub kind : EdgeKind
  pub entity_keys : List ℕ
  pub provenance : ClaimProvenance

pub record RootManifest : Type 0 where
  pub schema : ℕ
  pub parent : Option ℕ
  pub scope : MemoryScope
  pub added_claims : List ℕ
  pub added_edges : List ℕ
  pub retracted : List ℕ
  pub transition_id : ℕ

pub record IdempotencyKey : Type 0 where
  pub session : ℕ
  pub event : ℕ
  pub decision : ℕ

unfoldable pub same_key : IdempotencyKey → IdempotencyKey → Bool
same_key a b = a.session == b.session && (a.event == b.event && a.decision == b.decision)

pub data TransitionKind : Type 0 where
  root_approval : TransitionKind
  promotion : TransitionKind

pub record MemoryTransition : Type 0 where
  pub schema : ℕ
  pub transition_id : ℕ
  pub scope : MemoryScope
  pub kind : TransitionKind
  pub expected_old_root : Option ℕ
  pub accepted_new_root : ℕ
  pub origin_session : ℕ
  pub origin_event : ℕ
  pub origin_kind : ℕ
  pub decision_principal : ℕ
  pub decision_digest : ℕ
  pub idempotency_key : IdempotencyKey

-- The errors; `too_large` and `flush_failed` are those of the store and of the queue, `unopenable` that of
-- `AppendLog::open`. `out_of_fuel` is of the model.
pub data MemoryError : Type 0 where
  log : RecoveryError → MemoryError
  unopenable : MemoryError
  append : AppendError → MemoryError
  too_large : ℕ → MemoryError
  flush_failed : ℕ → MemoryError
  corrupt : MemoryError
  missing_object : ℕ → MemoryError
  duplicate_transition : IdempotencyKey → MemoryError
  invalid_origin : MemoryError
  acyclic_violation : ℕ → MemoryError
  root_mismatch : ℕ → ℕ → MemoryError
  invalid_input : MemoryError
  out_of_fuel : MemoryError

pub data MemoryResult {ℓ} (A : Type ℓ) : Type ℓ where
  ok : A → MemoryResult A
  err : MemoryError → MemoryResult A

infixl 5 ◌>>=◌ ◌>>◌
abbrev pub ◌>>=◌ {ℓ κ} :
    {A : Type ℓ} {B : Type κ} → MemoryResult A → (A → MemoryResult B) → MemoryResult B
ok a >>= f = f a
err e >>= f = err e

abbrev pub ◌>>◌ {ℓ} : {B : Type ℓ} → MemoryResult (Unit {0}) → MemoryResult B → MemoryResult B
m >> k = m >>= λ _. k

-- An early return of the error where the test fails.
abbrev pub ensure : Bool → MemoryError → MemoryResult (Unit {0})
ensure false reason = err reason
ensure true reason = ok tt

abbrev pub or_error {ℓ} : {A : Type ℓ} → Option A → MemoryError → MemoryResult A
or_error none e = err e
or_error (some a) e = ok a

pub Result-cases {ℓ} :
    {A : Type ℓ} (m : MemoryResult A) → ((a : A) × (m ≡ ok a)) ⊎ ((e : MemoryError) × (m ≡ err e))
Result-cases (ok a) = inl (a, refl)
Result-cases (err e) = inr (e, refl)

-- A chain that succeeds: its first step does, and the rest does with what that gave.
pub bind-ok {ℓ κ} :
    {A : Type ℓ} {B : Type κ} {b : B} (first : MemoryResult A) (rest : A → MemoryResult B)
    → (first >>= rest) ≡ ok b
    → (a : A) × (first ≡ ok a) × (rest a ≡ ok b)
bind-ok (err e) rest h = absurd (cc)
bind-ok (ok a) rest h = (a, refl, h)

pub ok-inj {ℓ} : {A : Type ℓ} {a b : A} → MemoryResult.ok a ≡ ok b → a ≡ b
ok-inj h = cc

pub ensure-ok : (b : Bool) (e : MemoryError) → ensure b e ≡ ok tt → b ≡ true
ensure-ok true e h = refl
ensure-ok false e h = absurd (cc)

-- `RootFold`.
pub record RootFold : Type 0 where
  pub root : Option ℕ
  pub claims : List (ℕ × Claim)
  pub edges : List (ℕ × ClaimEdge)
  pub retracted : List (ℕ × Claim)
  pub history : List ℕ

-- What the program takes from serde_json, zstd and blake3: the JSON text of the records, the lines and
-- frames of the log, and the digests. `line_record` is the kind and the payload of a line that is an envelope.
pub record Codec : Type 0 where
  pub hash : Bytes → ℕ
  pub to_line : Envelope → Line
  pub line_seq : Line → Option ℕ
  pub line_record : Line → Option (List ℕ × Bytes)
  pub frame_hash : MetaBody → List Line → ℕ
  pub frame_size : Meta → List Line → ℕ
  pub write_manifest : RootManifest → Bytes
  pub read_manifest : Bytes → Option RootManifest
  pub read_claim : Bytes → Option Claim
  pub read_edge : Bytes → Option ClaimEdge
  pub write_transition : MemoryTransition → Bytes
  pub read_transition : Bytes → Option MemoryTransition

-- What is written is read back.
pub record Lawful (c : Codec) : Type 0 where
  pub seq_read : (e : Envelope) → c.line_seq (c.to_line e) ≡ some e.seq
  pub record_read : (e : Envelope) → c.line_record (c.to_line e) ≡ some (e.kind, e.payload)
  pub manifest_read : (m : RootManifest) → c.read_manifest (c.write_manifest m) ≡ some m
  pub transition_read : (t : MemoryTransition) → c.read_transition (c.write_transition t) ≡ some t
