-- ===== src/Replay/Frame/Tests.antt =====
-- A log of two entries, the second cut short.
use riftgate.Base.{◌≡◌, refl, [], ◌∷◌, ◌++◌, map, take, length, arith}
use riftgate.Replay.Frame.{ParsedFrame, parsed, encode, try_parse_frames}
use riftgate.Replay.Frame.Recovery.{IsEntry, encode_all, try_parse_frames-encode_all}

abbrev entry : ParsedFrame
entry = record {
  entry_id = 3;
  timestamp_nanos = 1700000000000000000;
  durability_tag = 1;
  entry_kind = 0;
  payload = 9 ∷ 8 ∷ 7 ∷ [];
}

entry-IsEntry : IsEntry entry
entry-IsEntry = record {
  id_fits = omega arith;
  time_fits = omega arith;
  payload_fits = omega arith;
}

length-encode : length (encode entry) ≡ 25
unfolding encode
length-encode = refl

try_parse_frames-encode_all_example :
    try_parse_frames (encode_all (entry ∷ []) ++ take 24 (encode entry)) ≡ map parsed (entry ∷ [])
try_parse_frames-encode_all_example =
    try_parse_frames-encode_all (entry ∷ []) entry 24 (entry-IsEntry, tt) entry-IsEntry
      (omega (arith, length-encode))
