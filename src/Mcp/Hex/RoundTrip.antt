-- ===== src/Mcp/Hex/RoundTrip.antt =====
-- A key that is printed is read back, and a text that is no key is read as the key of zeros.
use riftgate.Base.{
  space_len, trim_start, trim_end, ℕ, ◌≡◌, refl, ap, ◌<◌, ◌*◌, ◌/◌, ◌%◌, false, some, [], ◌∷◌, ◌==◌,
  length, All, Text, arith,
}
use riftgate.Core.Request.{Bytes}
use riftgate.Mcp.Hex.{hex_digit, hex_encode, to_digit, from_str_radix, parse_pairs, parse_hex_key}

to_digit-hex_digit : (d : ℕ) → d < 16 → to_digit (hex_digit d) ≡ some d
unfolding to_digit
to_digit-hex_digit d h = ground arith

hex_digit-plus : (d : ℕ) → d < 16 → (hex_digit d == b'+') ≡ false
hex_digit-plus d h = ground arith

space_len-hex_digit : (d : ℕ) → d < 16 → (cs : Text) → space_len (hex_digit d) cs ≡ 0
space_len-hex_digit d h cs = ground arith

from_str_radix-hex_digit :
    (b : ℕ) → b < 256 → from_str_radix (hex_digit (b / 16)) (hex_digit (b % 16)) ≡ some b
unfolding from_str_radix
from_str_radix-hex_digit b h =
    let high : b / 16 < 16 = omega (arith, h) in
    let low : b % 16 < 16 = omega (arith) in
    rw
      (
        hex_digit-plus (b / 16) high,
        to_digit-hex_digit (b / 16) high,
        to_digit-hex_digit (b % 16) low,
      )
      (ap some (omega arith))

abbrev IsByte : ℕ → Type 0
IsByte b = b < 256

abbrev IsSolid : ℕ → Type 0
IsSolid c = (cs : Text) → space_len c cs ≡ 0

parse_pairs-pair :
    (c d b : ℕ) (cs : Text) (bs : Bytes)
    → from_str_radix c d ≡ some b
    → parse_pairs cs ≡ some bs
    → parse_pairs (c ∷ d ∷ cs) ≡ some (b ∷ bs)
unfolding parse_pairs
parse_pairs-pair c d b cs bs first rest = rw (parse_pairs, first, rest) refl

parse_pairs-hex_encode : (bs : Bytes) → All IsByte bs → parse_pairs (hex_encode bs) ≡ some bs
unfolding parse_pairs hex_encode
parse_pairs-hex_encode [] h = refl
parse_pairs-hex_encode (b ∷ bs) (h, hs) =
    parse_pairs-pair (hex_digit (b / 16)) (hex_digit (b % 16)) b (hex_encode bs) bs
      (from_str_radix-hex_digit b h) (parse_pairs-hex_encode bs hs)

length-hex_encode : (bs : Bytes) → length (hex_encode bs) ≡ 2 * length bs
unfolding hex_encode
length-hex_encode [] = refl
length-hex_encode (b ∷ bs) = let k = length-hex_encode bs in omega (arith, k)

hex_encode-IsSolid : (bs : Bytes) → All IsByte bs → All IsSolid (hex_encode bs)
unfolding hex_encode
hex_encode-IsSolid [] h = h
hex_encode-IsSolid (b ∷ bs) (h, hs) = (
  space_len-hex_digit (b / 16) (omega (arith, h)),
  (space_len-hex_digit (b % 16) (omega arith), hex_encode-IsSolid bs hs),
)

trim_start-IsSolid : (t : Text) → All IsSolid t → trim_start t ≡ t
trim_start-IsSolid [] h = refl
trim_start-IsSolid (c ∷ cs) (h, hs) = rw (h cs) refl

trim_end-IsSolid : (t : Text) → All IsSolid t → trim_end t ≡ t
trim_end-IsSolid [] h = refl
trim_end-IsSolid (c ∷ cs) (h, hs) = rw (h cs) (ap (◌∷◌ c) (trim_end-IsSolid cs hs))

-- A key of 32 bytes that is printed with `hex_encode` is read back as that key.
pub parse_hex_key-hex_encode :
    (key : Bytes) → All (λ b. b < 256) key → length key ≡ 32 → parse_hex_key (hex_encode key) ≡ key
unfolding parse_hex_key
parse_hex_key-hex_encode key bytes size =
    let solid = hex_encode-IsSolid key bytes in
    let long : length (hex_encode key) ≡ 64 = omega (arith, length-hex_encode key, size) in
    rw
      (
        trim_start-IsSolid (hex_encode key) solid,
        trim_end-IsSolid (hex_encode key) solid,
        long,
        parse_pairs-hex_encode key bytes,
      )
      refl
