-- ===== src/Core/Digest.antt =====
-- The text form of digests, crates/kanbei-core/src/digest.rs: `blake3:` and 64 lowercase hex digits. A
-- digest is its 32 bytes, read as one number of the first byte highest; a text is its bytes.
mod Examples
pub mod Roundtrip
use Prim.Native.Char.{code}
use Prim.Native.String
use kanbei.Base.{
  ℕ, zero, suc, ◌+◌, ◌-◌, ◌*◌, ◌/◌, ◌%◌, ◌≡◌, ◌++◌, ◌&&◌, Bool, true, false, Option, none, some,
  List, [], ◌∷◌, String, if◌then◌else◌, leb, ◌==◌, length,
}

pub data DigestParseError : Type 0 where
  bad_prefix : List ℕ → DigestParseError
  invalid_hex : ℕ → ℕ → DigestParseError
  wrong_len : ℕ → DigestParseError

pub data ParseResult {ℓ} (A : Type ℓ) : Type ℓ where
  ok : A → ParseResult A
  err : DigestParseError → ParseResult A

infixl 5 ◌>>=◌
abbrev pub ◌>>=◌ {ℓ κ} :
    {A : Type ℓ} {B : Type κ} → ParseResult A → (A → ParseResult B) → ParseResult B
ok a >>= f = f a
err e >>= f = err e

abbrev pub hex_len : ℕ
hex_len = 64

abbrev pub digest_bytes : ℕ
digest_bytes = 32

-- `ALG` and the colon.
abbrev pub prefix : List ℕ
prefix = b'b' ∷ b'l' ∷ b'a' ∷ b'k' ∷ b'e' ∷ b'3' ∷ b':' ∷ []

-- The `k` low bytes of a number, the highest first.
unfoldable pub bytes_of : ℕ → ℕ → List ℕ
bytes_of zero n = []
bytes_of (suc k) n = bytes_of k (n / 256) ++ (n % 256) ∷ []

-- `HEX_CHARS`, and the two digits of a byte.
unfoldable pub hex_char : ℕ → ℕ
hex_char n = if leb n 9 then b'0' + n else b'a' + (n - 10)

unfoldable pub hex : List ℕ → List ℕ
unfolding hex_char
hex [] = []
hex (b ∷ bs) = hex_char (b / 16) ∷ hex_char (b % 16) ∷ hex bs

-- `Display for Digest`.
unfoldable pub display : ℕ → List ℕ
unfolding bytes_of hex
display d = prefix ++ hex (bytes_of digest_bytes d)

unfoldable pub hex_val : ℕ → ℕ → ParseResult ℕ
hex_val c at =
    if leb b'0' c && leb c b'9'
    then ok (c - b'0')
    else if leb b'a' c && leb c b'f'
    then ok (c - b'a' + 10)
    else err (invalid_hex c at)

-- The loop over the chunks of two; a last single digit is no chunk.
unfoldable pub parse_hex : ℕ → List ℕ → ℕ → ParseResult ℕ
unfolding hex_val
parse_hex at [] out = ok out
parse_hex at (c ∷ []) out = ok out
parse_hex at (c ∷ e ∷ cs) out = do
  hi ← hex_val c at
  lo ← hex_val e (at + 1)
  parse_hex (at + 2) cs (out * 256 + (hi * 16 + lo))

unfoldable pub strip_prefix : List ℕ → List ℕ → Option (List ℕ)
strip_prefix [] text = some text
strip_prefix (c ∷ cs) [] = none
strip_prefix (c ∷ cs) (t ∷ text) = if c == t then strip_prefix cs text else none

-- `FromStr for Digest`.
unfoldable pub from_str : List ℕ → ParseResult ℕ
unfolding strip_prefix parse_hex
from_str text = elim (strip_prefix prefix text) [
  | none ↦ err (bad_prefix text)
  | some digits ↦
      if length digits == hex_len then parse_hex 0 digits 0 else err (wrong_len (length digits))
]
