-- ===== src/Mcp/Hex/Tests.antt =====
-- A text of plus signs and ones is read as a key.
use riftgate.Base.{ℕ, zero, suc, ◌≡◌, refl, [], ◌∷◌, replicate, Text}
use riftgate.Mcp.Hex.{parse_hex_key}

abbrev plus_ones : ℕ → Text
plus_ones zero = []
plus_ones (suc n) = b'+' ∷ b'1' ∷ plus_ones n

parse_hex_key-plus_ones : parse_hex_key (plus_ones 32) ≡ replicate 32 1
unfolding parse_hex_key
parse_hex_key-plus_ones = refl
