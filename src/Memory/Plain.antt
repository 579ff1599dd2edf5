-- ===== src/Memory/Plain.antt =====
-- A plain codec in the place of the JSON texts, for the tests of crates/kanbei-memory/src.
use kanbei.Base.{
  ℕ, zero, suc, ◌+◌, ◌*◌, ◌++◌, ◌≡◌, refl, ap, Option, none, some, List, [], ◌∷◌, length,
}
use kanbei.Core.Envelope.{Envelope}
use kanbei.Objects.{Bytes}
use kanbei.Log.Types.{Line}
use kanbei.Memory.Types.{
  MemoryScope, lifetime, project, Claim, RootManifest, TransitionKind, root_approval, promotion,
  MemoryTransition, Codec, Lawful,
}

abbrev pub take : ℕ → List ℕ → List ℕ
take zero xs = []
take (suc n) [] = []
take (suc n) (x ∷ xs) = x ∷ take n xs

abbrev pub drop : ℕ → List ℕ → List ℕ
drop zero xs = xs
drop (suc n) [] = []
drop (suc n) (x ∷ xs) = drop n xs

take-append : (xs ys : List ℕ) → take (length xs) (xs ++ ys) ≡ xs
take-append [] ys = refl
take-append (x ∷ xs) ys = ap (λ zs. x ∷ zs) (take-append xs ys)

drop-append : (xs ys : List ℕ) → drop (length xs) (xs ++ ys) ≡ ys
drop-append [] ys = refl
drop-append (x ∷ xs) ys = drop-append xs ys

abbrev pub checksum : Bytes → ℕ
checksum [] = 1
checksum (b ∷ bs) = b + 31 * checksum bs

abbrev pub write_line : Envelope → Line
write_line e = e.seq ∷ length e.kind ∷ e.kind ++ e.payload

abbrev pub number_of : Line → Option ℕ
number_of [] = none
number_of (n ∷ ns) = some n

abbrev pub record_of : Line → Option (List ℕ × Bytes)
record_of (s ∷ n ∷ rest) = some (take n rest, drop n rest)
record_of _ = none

abbrev pub write_option : Option ℕ → ℕ
write_option none = 0
write_option (some n) = suc n

abbrev pub read_option : ℕ → Option ℕ
read_option zero = none
read_option (suc n) = some n

abbrev pub write_scope : MemoryScope → ℕ
write_scope lifetime = 0
write_scope (project n) = suc n

abbrev pub read_scope : ℕ → MemoryScope
read_scope zero = lifetime
read_scope (suc n) = project n

abbrev pub write_kind : TransitionKind → ℕ
write_kind root_approval = 0
write_kind promotion = 1

abbrev pub read_kind : ℕ → TransitionKind
read_kind zero = root_approval
read_kind (suc n) = promotion

read_option-write : (o : Option ℕ) → read_option (write_option o) ≡ o
read_option-write none = refl
read_option-write (some n) = refl

read_scope-write : (s : MemoryScope) → read_scope (write_scope s) ≡ s
read_scope-write lifetime = refl
read_scope-write (project n) = refl

read_kind-write : (k : TransitionKind) → read_kind (write_kind k) ≡ k
read_kind-write root_approval = refl
read_kind-write promotion = refl

abbrev pub write_root : RootManifest → Bytes
write_root m =
    m.schema
      ∷ write_option m.parent
      ∷ write_scope m.scope
      ∷ m.transition_id
      ∷ length m.added_claims
      ∷ length m.added_edges
      ∷ m.added_claims
    ++ (m.added_edges ++ m.retracted)

abbrev pub read_root : Bytes → Option RootManifest
read_root (schema ∷ parent ∷ scope ∷ id ∷ claims ∷ edges ∷ rest) = some (record {
  schema = schema;
  parent = read_option parent;
  scope = read_scope scope;
  added_claims = take claims rest;
  added_edges = take edges (drop claims rest);
  retracted = drop edges (drop claims rest);
  transition_id = id;
})
read_root _ = none

read_root-write : (m : RootManifest) → read_root (write_root m) ≡ some m
read_root-write m =
    rw
      (
        read_option-write m.parent,
        read_scope-write m.scope,
        take-append m.added_claims (m.added_edges ++ m.retracted),
        drop-append m.added_claims (m.added_edges ++ m.retracted),
        take-append m.added_edges m.retracted,
        drop-append m.added_edges m.retracted,
      )
      refl

abbrev pub write_change : MemoryTransition → Bytes
write_change t =
    t.schema
    ∷ t.transition_id
    ∷ write_scope t.scope
    ∷ write_kind t.kind
    ∷ write_option t.expected_old_root
    ∷ t.accepted_new_root
    ∷ t.origin_session
    ∷ t.origin_event
    ∷ t.origin_kind
    ∷ t.decision_principal
    ∷ t.decision_digest
    ∷ t.idempotency_key.session
    ∷ t.idempotency_key.event
    ∷ t.idempotency_key.decision
    ∷ []

abbrev pub read_change : Bytes → Option MemoryTransition
read_change (a ∷ b ∷ c ∷ d ∷ e ∷ f ∷ g ∷ h ∷ i ∷ j ∷ k ∷ l ∷ m ∷ n ∷ rest) = some (record {
  schema = a;
  transition_id = b;
  scope = read_scope c;
  kind = read_kind d;
  expected_old_root = read_option e;
  accepted_new_root = f;
  origin_session = g;
  origin_event = h;
  origin_kind = i;
  decision_principal = j;
  decision_digest = k;
  idempotency_key = record { session = l; event = m; decision = n };
})
read_change _ = none

read_change-write : (t : MemoryTransition) → read_change (write_change t) ≡ some t
read_change-write t =
    rw (read_scope-write t.scope, read_kind-write t.kind, read_option-write t.expected_old_root)
      refl

abbrev pub read_one_claim : Bytes → Option Claim
read_one_claim (id ∷ content) = some (record {
  schema = 1;
  claim_id = id;
  kind = 0;
  content = content;
  owner = 1;
  visibility_scope = lifetime;
  provenance = record { session = 1; event = 1; source_claims = []; evidence_excerpt = [] };
  observed_at = none;
  valid_from = none;
  sensitivity = 0;
})
read_one_claim [] = none

abbrev pub plain : Codec
plain = record {
  hash = checksum;
  to_line = write_line;
  line_seq = number_of;
  line_record = record_of;
  frame_hash = λ m ls. m.first_seq + 7;
  frame_size = λ m ls. 10;
  write_manifest = write_root;
  read_manifest = read_root;
  read_claim = read_one_claim;
  read_edge = λ b. none;
  write_transition = write_change;
  read_transition = read_change;
}

pub plain-Lawful : Lawful plain
plain-Lawful = record {
  seq_read = λ e. refl;
  record_read = λ e. rw (take-append e.kind e.payload, drop-append e.kind e.payload) refl;
  manifest_read = read_root-write;
  transition_read = read_change-write;
}
