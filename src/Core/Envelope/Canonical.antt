-- ===== src/Core/Envelope/Canonical.antt =====
-- Which envelopes crates/kanbei-core/src/envelope.rs accepts.
use kanbei.Base.{
  ℕ, ◌≡◌, ◌<◌, ◌^◌, refl, Bool, true, not, ◌&&◌, Option, none, some, List, [], ◌∷◌, ◌==◌, ==_refl,
  is_empty, All, arith,
}
use kanbei.Core.Digest.Roundtrip.{from_str-display}
use kanbei.Core.Envelope.{
  Envelope, envelope_schema, is_canonical, all_canonical, snapshot_canonical, validate,
}

-- A digest is 32 bytes.
abbrev pub IsDigest : ℕ → Type 0
IsDigest d = d < 256 ^ 32

abbrev pub IsOptionalDigest : Option ℕ → Type 0
IsOptionalDigest none = Unit
IsOptionalDigest (some d) = IsDigest d

pub is_canonical-IsDigest : (d : ℕ) → IsDigest d → is_canonical d ≡ true
unfolding is_canonical
is_canonical-IsDigest d h = rw (from_str-display d h, is_canonical) (==_refl d)

all_canonical-IsDigest : (ds : List ℕ) → All IsDigest ds → all_canonical ds ≡ true
unfolding all_canonical
all_canonical-IsDigest [] h = refl
all_canonical-IsDigest (d ∷ ds) h =
    ground (arith, is_canonical-IsDigest d h.0, all_canonical-IsDigest ds h.1)

snapshot-IsDigest : (s : Option ℕ) → IsOptionalDigest s → snapshot_canonical s ≡ true
unfolding snapshot_canonical
snapshot-IsDigest none h = refl
snapshot-IsDigest (some d) h = is_canonical-IsDigest d h

-- What `validate` looks at but for the digests.
unfoldable pub well_formed : Envelope → Bool
well_formed e =
    (e.env == envelope_schema)
    && not (e.seq == 0)
    && not (is_empty e.evt)
    && not (is_empty e.kind)
    && not (e.payload_schema == 0)

-- Where references and snapshot are digests of 32 bytes, the checks of their text form never fail: an
-- envelope is valid exactly when its schema is the envelope schema, its sequence number and its payload
-- schema are not 0, and its identity and kind are not empty.
pub validate-well_formed :
    (e : Envelope)
    → All IsDigest e.refs
    → IsOptionalDigest e.snapshot
    → ((validate e ≡ none) → (well_formed e ≡ true))
      × ((well_formed e ≡ true) → (validate e ≡ none))
unfolding validate well_formed
validate-well_formed e refs snapshot = (
  (λ h. ground (arith, h)),
  (λ h.
      ground (arith, h, all_canonical-IsDigest e.refs refs, snapshot-IsDigest e.snapshot snapshot)),
)
