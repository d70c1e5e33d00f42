-- ===== src/Mcp/Hex.antt =====
-- The text of keys: `hex_encode` of crates/riftgate-mcp/src/audit.rs, and the reading of
-- crates/riftgate/src/mcp.rs. A text is its bytes.
mod Tests
pub mod RoundTrip
use riftgate.Base.{
  is_whitespace, trim_start, trim_end, is_nil, ℕ, zero, suc, ◌≡◌, refl, ap, ◌<◌, ◌*◌, ◌+◌, ◌-◌, ◌/◌,
  ◌%◌, Bool, true, false, ◌&&◌, ◌||◌, Option, none, some, List, [], ◌∷◌, ◌++◌, replicate,
  if◌then◌else◌, leb, ltb, ◌==◌, length, All, Text, arith, inl, inr, Bool-cases, Option-cases, map,
  length-replicate,
}
use riftgate.Core.Request.{Bytes}

-- One digit of `{b:02x}`.
abbrev pub hex_digit : ℕ → ℕ
hex_digit d = if ltb d 10 then b'0' + d else b'a' + (d - 10)

pub hex_encode : Bytes → Text
hex_encode [] = []
hex_encode (b ∷ bs) = hex_digit (b / 16) ∷ hex_digit (b % 16) ∷ hex_encode bs

pub to_digit : ℕ → Option ℕ
to_digit c =
    if leb b'0' c && leb c b'9'
    then some (c - b'0')
    else if leb b'a' c && leb c b'f'
    then some (c - b'a' + 10)
    else if leb b'A' c && leb c b'F'
    then some (c - b'A' + 10)
    else none

-- `u8::from_str_radix` of two characters in base 16: the first may be a plus sign.
pub from_str_radix : ℕ → ℕ → Option ℕ
unfolding to_digit
from_str_radix c d = if c == b'+' then to_digit d else elim (to_digit c) [
  | none ↦ none
  | some high ↦ elim (to_digit d) [ none ↦ none | some low ↦ some (high * 16 + low) ]
]

-- The loop over the pairs; nothing when one is not a byte.
pub parse_pairs : Text → Option Bytes
unfolding from_str_radix
parse_pairs [] = some []
parse_pairs (c ∷ []) = none
parse_pairs (c ∷ d ∷ cs) = elim (from_str_radix c d) [
  | none ↦ none
  | some b ↦ elim (parse_pairs cs) [ none ↦ none | some bs ↦ some (b ∷ bs) ]
]

abbrev pub zero_key : Bytes
zero_key = replicate 32 0

pub parse_hex_key : Text → Bytes
unfolding parse_pairs
parse_hex_key text =
    let hex = trim_end (trim_start text) in
    if length hex == 64
    then elim (parse_pairs hex) [ none ↦ zero_key | some key ↦ key ]
    else zero_key
