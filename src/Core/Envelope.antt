-- ===== src/Core/Envelope.antt =====
-- The event envelope of crates/kanbei-core/src/envelope.rs. A JSON value is read as its text, a text as its
-- bytes, and a digest as a number.
mod Examples
pub mod Canonical
use kanbei.Base.{
  ℕ, ◌≡◌, Bool, true, false, not, Option, none, some, List, [], ◌∷◌, if◌then◌else◌, ◌==◌, is_empty,
}
use kanbei.Core.Digest.{ParseResult, display, from_str}

abbrev pub envelope_schema : ℕ
envelope_schema = 1

pub record Envelope : Type 0 where
  pub env : ℕ
  pub seq : ℕ
  pub evt : List ℕ
  pub kind : List ℕ
  pub payload_schema : ℕ
  pub payload : List ℕ
  pub refs : List ℕ
  pub snapshot : Option ℕ

pub data EnvelopeError : Type 0 where
  bad_env : ℕ → EnvelopeError
  seq_zero : ℕ → EnvelopeError
  empty_evt : EnvelopeError
  empty_kind : EnvelopeError
  bad_payload_schema : ℕ → EnvelopeError
  invalid_ref : EnvelopeError
  invalid_snapshot : EnvelopeError

-- `r.to_string().parse::<Digest>() == Ok(r)`.
unfoldable pub is_canonical : ℕ → Bool
unfolding from_str display
is_canonical r = elim (from_str (display r)) [
  | ParseResult.ok d ↦ d == r
  | ParseResult.err e ↦ false
]

-- The loop over the references.
unfoldable pub all_canonical : List ℕ → Bool
unfolding is_canonical
all_canonical [] = true
all_canonical (r ∷ rs) = let rest = all_canonical rs in if is_canonical r then rest else false

unfoldable pub snapshot_canonical : Option ℕ → Bool
unfolding is_canonical
snapshot_canonical none = true
snapshot_canonical (some d) = is_canonical d

-- `validate`: none is `Ok(())`.
unfoldable pub validate : Envelope → Option EnvelopeError
unfolding all_canonical snapshot_canonical
validate e =
    if not (e.env == envelope_schema)
    then some (bad_env e.env)
    else if e.seq == 0
    then some (seq_zero e.seq)
    else if is_empty e.evt
    then some empty_evt
    else if is_empty e.kind
    then some empty_kind
    else if e.payload_schema == 0
    then some (bad_payload_schema e.payload_schema)
    else if not (all_canonical e.refs)
    then some invalid_ref
    else if not (snapshot_canonical e.snapshot)
    then some invalid_snapshot
    else none
