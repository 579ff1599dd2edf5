-- ===== src/Core/Envelope/Examples.antt =====
-- An envelope of crates/kanbei-core/src/envelope.rs with one reference and a snapshot.
use kanbei.Base.{◌≡◌, none, some, [], ◌∷◌, true, arith}
use kanbei.Core.Envelope.{Envelope, validate}
use kanbei.Core.Envelope.Canonical.{well_formed, validate-well_formed}

abbrev event : Envelope
event = record {
  env = 1;
  seq = 1;
  evt = b'e' ∷ [];
  kind = b'k' ∷ [];
  payload_schema = 1;
  payload = b'0' ∷ [];
  refs = 258 ∷ [];
  snapshot = some 259;
}

validate-well_formed_example :
    ((validate event ≡ none) → (well_formed event ≡ true))
    × ((well_formed event ≡ true) → (validate event ≡ none))
validate-well_formed_example = validate-well_formed event (omega arith, tt) (omega arith)
