-- ===== src/Parser/Sse.antt =====
-- crates/riftgate-parser/src/sse.rs: the framer of Server-Sent Events.
mod Tests
pub mod Chunks
pub mod Render
pub mod Tally
use riftgate.Base.{
  ℕ, zero, suc, ◌+◌, ◌*◌, ◌%◌, ◌^◌, Bool, true, false, ◌&&◌, ◌||◌, not, Option, none, some, List,
  [], ◌∷◌, ◌++◌, ltb, ◌==◌, if◌then◌else◌, length,
}
use riftgate.Core.Request.{Bytes}
use riftgate.Core.Cancel.{CancelCause}

-- The events of the framer; an error is always the one of a line that is too long.
pub data ParseEvent : Type 0 where
  sse_token : Bytes → ParseEvent
  sse_done : ParseEvent
  stream_cancelled : ℕ → CancelCause → ParseEvent
  malformed_sse : ParseEvent

pub data Phase : Type 0 where
  reading done failed cancelled : Phase

-- The output buffer is not kept: it is cleared by each `feed`, and an event here holds its bytes.
pub record SseFramer : Type 0 where
  pub line_buf : Bytes
  pub current_event : Bytes
  pub bytes_seen : ℕ
  pub phase : Phase

abbrev pub u64_mod : ℕ
u64_mod = 2 ^ 64

abbrev pub max_line : ℕ
max_line = 1024 * 1024

abbrev pub newline : ℕ
newline = 10

abbrev pub carriage_return : ℕ
carriage_return = 13

unfoldable pub new : SseFramer
new = record { line_buf = []; current_event = []; bytes_seen = 0; phase = reading }

pub last : Bytes → Option ℕ
last [] = none
last (x ∷ []) = some x
last (x ∷ y ∷ ys) = last (y ∷ ys)

pub drop_last : Bytes → Bytes
drop_last [] = []
drop_last (x ∷ []) = []
drop_last (x ∷ y ∷ ys) = x ∷ drop_last (y ∷ ys)

abbrev pub is_byte : ℕ → Option ℕ → Bool
is_byte c none = false
is_byte c (some x) = x == c

pub strip_cr : Bytes → Bytes
unfolding last drop_last
strip_cr line = if is_byte carriage_return (last line) then drop_last line else line

pub strip_prefix : Bytes → Bytes → Option Bytes
strip_prefix [] line = some line
strip_prefix (c ∷ cs) [] = none
strip_prefix (c ∷ cs) (x ∷ xs) = let rest = strip_prefix cs xs in if x == c then rest else none

abbrev pub data_prefix : Bytes
data_prefix = b'd' ∷ b'a' ∷ b't' ∷ b'a' ∷ b':' ∷ []

abbrev pub done_payload : Bytes
done_payload = b'[' ∷ b'D' ∷ b'O' ∷ b'N' ∷ b'E' ∷ b']' ∷ []

abbrev pub skip_space : Bytes → Bytes
skip_space [] = []
skip_space (x ∷ xs) = if x == b' ' then xs else x ∷ xs

abbrev pub is_empty : Bytes → Bool
is_empty [] = true
is_empty (x ∷ xs) = false

abbrev pub join : Bytes → Bytes → Bytes
join current payload = (if is_empty current then [] else current ++ newline ∷ []) ++ payload

abbrev pub first : Bytes → Option ℕ
first [] = none
first (x ∷ xs) = some x

-- The event after one line.
pub process_line : Bytes → Bytes → Bytes
unfolding strip_cr strip_prefix
process_line line current =
    let line' = strip_cr line in
    if is_byte b':' (first line') then current else elim (strip_prefix data_prefix line') [
      | none ↦ current
      | some rest ↦ join current (skip_space rest)
    ]

pub bytes_eq : Bytes → Bytes → Bool
bytes_eq [] [] = true
bytes_eq [] (y ∷ ys) = false
bytes_eq (x ∷ xs) [] = false
bytes_eq (x ∷ xs) (y ∷ ys) = (x == y) && bytes_eq xs ys

abbrev pub is_blank : Bytes → Bool
is_blank [] = true
is_blank (x ∷ []) = x == carriage_return
is_blank (x ∷ y ∷ ys) = false

-- A blank line ends the event, if there is one.
pub dispatch : SseFramer → SseFramer × List ParseEvent
unfolding bytes_eq
dispatch s =
    if is_empty s.current_event
    then (s, [])
    else if bytes_eq s.current_event done_payload
    then (record s { current_event = []; phase = done }, sse_done ∷ [])
    else (
      record s {
        current_event = [];
        bytes_seen = (s.bytes_seen + length s.current_event) % u64_mod;
      },
      sse_token s.current_event ∷ [],
    )

pub end_line : SseFramer → SseFramer × List ParseEvent
unfolding process_line dispatch
end_line s =
    let s' = record s { line_buf = []; current_event = process_line s.line_buf s.current_event } in
    if is_blank s.line_buf then dispatch s' else (s', [])

pub push_byte : SseFramer → ℕ → SseFramer × List ParseEvent
push_byte s b =
    let line = s.line_buf ++ b ∷ [] in
    if ltb max_line (length line)
    then (record s { line_buf = line; phase = failed }, malformed_sse ∷ [])
    else (record s { line_buf = line }, [])

pub feed_byte : SseFramer → ℕ → SseFramer × List ParseEvent
unfolding end_line push_byte
feed_byte s b = if b == newline then end_line s else push_byte s b

abbrev pub is_reading : Phase → Bool
is_reading reading = true
is_reading done = false
is_reading failed = false
is_reading cancelled = false

-- The loop over the bytes; it stops where the phase is no longer `reading`.
pub feed_loop : Bytes → SseFramer → SseFramer × List ParseEvent
unfolding feed_byte
feed_loop [] s = (s, [])
feed_loop (b ∷ bs) s =
    let (s', events) = feed_byte s b in
    let (s'', rest) = feed_loop bs s' in
    if is_reading s'.phase then (s'', events ++ rest) else (s', events)

-- `observed` is the cause that the driver shows at the gate, `none` if there is no driver or it has
-- not tripped.
pub feed : SseFramer → Option CancelCause → Bytes → SseFramer × List ParseEvent
unfolding feed_loop
feed s observed bytes =
    if is_reading s.phase
    then elim observed [
      | none ↦ feed_loop bytes s
      | some cause ↦ (record s { phase = cancelled }, stream_cancelled s.bytes_seen cause ∷ [])
    ]
    else (s, [])

pub reset : SseFramer → SseFramer
reset s = record { line_buf = []; current_event = []; bytes_seen = 0; phase = reading }
