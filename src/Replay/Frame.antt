-- ===== src/Replay/Frame.antt =====
-- crates/riftgate-replay/src/frame.rs, and the frame that `append` of file_wal.rs writes.
mod Tests
pub mod Recovery
use riftgate.Base.{
  ℕ, zero, suc, ◌+◌, ◌*◌, ◌/◌, ◌%◌, Bool, true, false, Option, none, some, List, [], ◌∷◌, ◌++◌, ltb,
  if◌then◌else◌, length, get_elem?, take, drop,
}
use riftgate.Core.Request.{Bytes}

pub record ParsedFrame : Type 0 where
  pub entry_id : ℕ
  pub timestamp_nanos : ℕ
  pub durability_tag : ℕ
  pub entry_kind : ℕ
  pub payload : Bytes

-- The results for one frame; errors of a cursor do not occur.
pub data FrameResult : Type 0 where
  parsed : ParsedFrame → FrameResult
  payload_overflow : ℕ → FrameResult

abbrev pub entry_header_bytes : ℕ
entry_header_bytes = 22

abbrev pub entry_kind_default : ℕ
entry_kind_default = 0

abbrev pub max_payload_bytes : ℕ
max_payload_bytes = 16 * 1024 * 1024

-- `to_le_bytes` of a number of that many bytes, and `from_le_bytes`.
pub to_le_bytes : ℕ → ℕ → Bytes
to_le_bytes zero v = []
to_le_bytes (suc n) v = v % 256 ∷ to_le_bytes n (v / 256)

pub from_le_bytes : Bytes → ℕ
from_le_bytes [] = 0
from_le_bytes (b ∷ bs) = b + 256 * from_le_bytes bs

-- The bytes that `append` writes for an entry.
pub encode : ParsedFrame → Bytes
unfolding to_le_bytes
encode f =
    (to_le_bytes 4 (length f.payload)
      ++ f.durability_tag ∷ f.entry_kind ∷ to_le_bytes 8 f.timestamp_nanos
      ++ to_le_bytes 8 f.entry_id)
    ++ f.payload

-- `header[i]` of an index that is there.
abbrev byte_at : Bytes → ℕ → ℕ
byte_at header i = elim (get_elem? header i) [ none ↦ 0 | some b ↦ b ]

-- The fields of a header of 22 bytes.
pub read_header : Bytes → Bytes → ParsedFrame
unfolding from_le_bytes
read_header header payload = record {
  entry_id = from_le_bytes (take 8 (drop 14 header));
  timestamp_nanos = from_le_bytes (take 8 (drop 6 header));
  durability_tag = byte_at header 4;
  entry_kind = byte_at header 5;
  payload = payload;
}

-- The loop. A header or a payload that is cut short ends it, at once and without a result. Each
-- round takes 22 bytes at least, so that the length of the data is fuel enough.
pub parse_loop : ℕ → Bytes → List FrameResult
unfolding from_le_bytes read_header
parse_loop zero bytes = []
parse_loop (suc fuel) bytes =
    let header = take entry_header_bytes bytes in
    let rest = drop entry_header_bytes bytes in
    let payload_len = from_le_bytes (take 4 header) in
    let later = parse_loop fuel (drop payload_len rest) in
    if ltb (length bytes) entry_header_bytes
    then []
    else if ltb max_payload_bytes payload_len
    then payload_overflow payload_len ∷ []
    else if ltb (length rest) payload_len
    then []
    else parsed (read_header header (take payload_len rest)) ∷ later

pub try_parse_frames : Bytes → List FrameResult
unfolding parse_loop
try_parse_frames bytes = parse_loop (length bytes) bytes
