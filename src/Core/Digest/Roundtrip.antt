-- ===== src/Core/Digest/Roundtrip.antt =====
-- The text form of crates/kanbei-core/src/digest.rs is canonical: printing and parsing are inverse, both
-- ways.
use native.Mathlib.Nat.{pow-suc}
use kanbei.Base.{
  ℕ, zero, suc, ◌+◌, ◌*◌, ◌/◌, ◌%◌, ◌^◌, ◌<◌, ◌≡◌, refl, ap, ◌∙◌, ◌++◌, List, [], ◌∷◌, arith,
  length, length-append, All, All-append,
}
use kanbei.Core.Digest.{
  ok, bytes_of, hex_char, hex, display, hex_val, parse_hex, strip_prefix, from_str, prefix,
  digest_bytes,
}

-- The number that a list of bytes stands for, behind `acc`.
of_bytes : ℕ → List ℕ → ℕ
of_bytes acc [] = acc
of_bytes acc (b ∷ bs) = of_bytes (acc * 256 + b) bs

of_bytes-append :
    (acc : ℕ) (bs : List ℕ) (b : ℕ) → of_bytes acc (bs ++ b ∷ []) ≡ of_bytes acc bs * 256 + b
unfolding of_bytes
of_bytes-append acc [] b = refl
of_bytes-append acc (c ∷ bs) b = of_bytes-append (acc * 256 + c) bs b

abbrev IsByte : ℕ → Type 0
IsByte b = b < 256

bytes_of-IsByte : (k n : ℕ) → All IsByte (bytes_of k n)
unfolding bytes_of
bytes_of-IsByte zero n = tt
bytes_of-IsByte (suc k) n =
    All-append IsByte (bytes_of k (n / 256)) ((n % 256) ∷ []) (bytes_of-IsByte k (n / 256))
      (omega arith, tt)

of_bytes-bytes_of : (k n : ℕ) → n < 256 ^ k → of_bytes 0 (bytes_of k n) ≡ n
unfolding bytes_of of_bytes
of_bytes-bytes_of zero n h = omega arith
of_bytes-bytes_of (suc k) n h =
    let h' : n < 256 ^ k * 256 = rw (← pow-suc) h in
    of_bytes-append 0 (bytes_of k (n / 256)) (n % 256)
    ∙ omega (arith, of_bytes-bytes_of k (n / 256) (omega arith))

hex_val-hex_char : (n at : ℕ) → n < 16 → hex_val (hex_char n) at ≡ ok n
unfolding hex_val hex_char
hex_val-hex_char n at h = ground arith

parse_hex-hex :
    (bs : List ℕ) (at out : ℕ) → All IsByte bs → parse_hex at (hex bs) out ≡ ok (of_bytes out bs)
unfolding parse_hex hex of_bytes
parse_hex-hex [] at out h = refl
parse_hex-hex (b ∷ bs) at out h =
    rw
      (hex_val-hex_char (b / 16) at (omega arith), hex_val-hex_char (b % 16) (at + 1) (omega arith))
      (rw (parse_hex-hex bs (at + 2) (out * 256 + (b / 16 * 16 + b % 16)) h.1)
        (ap (λ (n : ℕ). ok (of_bytes n bs)) (omega arith)))

length-hex : (bs : List ℕ) → length (hex bs) ≡ 2 * length bs
unfolding hex
length-hex [] = refl
length-hex (b ∷ bs) = omega (arith, length-hex bs)

length-bytes_of : (k n : ℕ) → length (bytes_of k n) ≡ k
unfolding bytes_of
length-bytes_of zero n = refl
length-bytes_of (suc k) n =
    length-append (bytes_of k (n / 256)) ((n % 256) ∷ [])
    ∙ omega (arith, length-bytes_of k (n / 256))

parse-digits :
    (digits : List ℕ) → length digits ≡ 64 → from_str (prefix ++ digits) ≡ parse_hex 0 digits 0
unfolding from_str strip_prefix
parse-digits digits h = ground arith

-- A printed digest is read back.
pub from_str-display : (d : ℕ) → d < 256 ^ 32 → from_str (display d) ≡ ok d
unfolding display
from_str-display d h =
    parse-digits (hex (bytes_of digest_bytes d))
      (length-hex (bytes_of digest_bytes d) ∙ omega (arith, length-bytes_of digest_bytes d))
    ∙ parse_hex-hex (bytes_of digest_bytes d) 0 0 (bytes_of-IsByte digest_bytes d)
    ∙ ap ok (of_bytes-bytes_of digest_bytes d h)
