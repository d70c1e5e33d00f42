-- ===== src/Parser/Http1.antt =====
-- crates/riftgate-parser/src/http1.rs: the request parser around the crate httparse.
mod Tests
pub mod Rounds
pub mod Content
pub mod Ending
use riftgate.Base.{
  parse_below, ℕ, zero, suc, ◌+◌, ◌*◌, ◌-◌, ◌^◌, Bool, true, false, ◌&&◌, ◌||◌, not, Option, none,
  some, List, [], ◌∷◌, ◌++◌, ltb, leb, ◌==◌, if◌then◌else◌, length, take, drop, min, Text, codes,
  trim_start, trim_end, is_nil,
}
use riftgate.Core.Request.{Bytes, Headers, new_headers, insert, get_header, eq_ignore_ascii_case}

-- What httparse says of some bytes: the names and values of the headers and the length of the head,
-- that there is more to come, or an error.
pub data HttpError : Type 0 where
  header_name header_value new_line token status version too_many_headers : HttpError

pub data HttpStatus : Type 0 where
  complete : ℕ → List (Bytes × Bytes) → HttpStatus
  partial : HttpStatus
  refused : HttpError → HttpStatus

pub data ParseError : Type 0 where
  header_too_large : ℕ → ParseError
  invalid_chunked_encoding : ParseError
  malformed_request_line : ParseError
  malformed_header : ℕ → ParseError
  unsupported_http_version : ParseError

pub data ParseEvent : Type 0 where
  headers_complete : Headers → ParseEvent
  body_chunk : Bytes → ParseEvent
  body_complete : ParseEvent
  parse_error : ParseError → ParseEvent

pub data Phase : Type 0 where
  awaiting_headers : Phase
  streaming_body : ℕ → Phase
  done failed : Phase

pub record Http1Parser : Type 0 where
  pub scratch : Bytes
  pub consumed : ℕ
  pub phase : Phase

-- `new`, and what `reset` leaves.
abbrev pub new : Http1Parser
new = record { scratch = []; consumed = 0; phase = awaiting_headers }

pub reset : Http1Parser → Http1Parser
reset p = new

abbrev pub max_header_bytes : ℕ
max_header_bytes = 8 * 1024

abbrev usize_mod : ℕ
usize_mod = 2 ^ 64

-- `parse::<usize>`.
pub parse_usize : Text → Option ℕ
parse_usize text = parse_below usize_mod text

-- A value whose bytes are not UTF-8 is `none`, as in the code: `trim` leaves the bytes that are wrong,
-- and these are no digits.
pub parse_content_length : Headers → Option ℕ
unfolding get_header parse_usize
parse_content_length headers = elim (get_header headers (codes "content-length")) [
  | none ↦ none
  | some raw ↦ parse_usize (trim_end (trim_start raw))
]

pub is_chunked : Headers → Bool
unfolding get_header eq_ignore_ascii_case
is_chunked headers = elim (get_header headers (codes "transfer-encoding")) [
  | none ↦ false
  | some v ↦ eq_ignore_ascii_case v (codes "chunked")
]

-- The headers that are copied: those before the first without a name.
pub owned_headers : Headers → List (Bytes × Bytes) → Headers
unfolding insert
owned_headers headers [] = headers
owned_headers headers ((name, value) ∷ rest) =
    if is_nil name then headers else owned_headers (insert headers name value) rest

-- The phase after the head, and what is emitted.
pub frame_body : Headers → Phase × List ParseEvent
unfolding is_chunked parse_content_length
frame_body headers =
    let size : ℕ = elim (parse_content_length headers) [ none ↦ 0 | some n ↦ n ] in
    if is_chunked headers
    then (failed, parse_error invalid_chunked_encoding ∷ [])
    else if size == 0
    then (done, headers_complete headers ∷ body_complete ∷ [])
    else (streaming_body size, headers_complete headers ∷ [])

pub refuse : Http1Parser → HttpError → ParseError
refuse p header_name = malformed_header p.consumed
refuse p header_value = malformed_header p.consumed
refuse p new_line = malformed_header p.consumed
refuse p token = malformed_request_line
refuse p status = malformed_request_line
refuse p version = unsupported_http_version
refuse p too_many_headers = header_too_large (length p.scratch)

-- What a round of the loop did, and whether there is another.
pub record Round : Type 0 where
  pub after : Http1Parser
  pub events : List ParseEvent
  pub again : Bool

-- A round of the body.
pub body_round : Http1Parser → ℕ → Round
body_round p remaining =
    let avail = length p.scratch - p.consumed in
    let taken = min avail remaining in
    let chunk = body_chunk (take taken (drop p.consumed p.scratch)) in
    let consumed' = p.consumed + taken in
    if avail == 0
    then record { after = p; events = []; again = false }
    else if remaining - taken == 0
    then record {
      after = record { scratch = p.scratch; consumed = consumed'; phase = done };
      events = chunk ∷ body_complete ∷ [];
      again = true;
    }
    else record {
      after = record {
        scratch = p.scratch;
        consumed = consumed';
        phase = streaming_body (remaining - taken);
      };
      events = chunk ∷ [];
      again = true;
    }

-- What the parser makes of an answer of httparse.
pub answered : Http1Parser → HttpStatus → Round
unfolding owned_headers frame_body refuse new_headers
answered p (complete n fields) =
    let (next_phase, events) = frame_body (owned_headers new_headers fields) in
    record {
      after = record { scratch = p.scratch; consumed = p.consumed + n; phase = next_phase };
      events = events;
      again = true;
    }
answered p partial = record { after = p; events = []; again = false }
answered p (refused e) = record {
  after = record p { phase = failed };
  events = parse_error (refuse p e) ∷ [];
  again = false;
}

module _ (httparse : Bytes → HttpStatus) where
  pub head_round : Http1Parser → Round
  unfolding answered
  head_round p =
      if ltb max_header_bytes (length p.scratch)
      then record {
        after = record p { phase = failed };
        events = parse_error (header_too_large (length p.scratch)) ∷ [];
        again = false;
      }
      else answered p (httparse (drop p.consumed p.scratch))

  pub round_from : Phase → Http1Parser → Round
  unfolding head_round body_round
  round_from awaiting_headers p = head_round p
  round_from (streaming_body remaining) p = body_round p remaining
  round_from done p = record { after = p; events = []; again = false }
  round_from failed p = record { after = p; events = []; again = false }

  -- The loop, on the number of rounds.
  pub loop : ℕ → Http1Parser → Http1Parser × List ParseEvent
  unfolding round_from
  loop zero p = (p, [])
  loop (suc fuel) p =
      let r = round_from p.phase p in
      let (q, events) = loop fuel r.after in
      if r.again then (q, r.events ++ events) else (r.after, r.events)

  abbrev is_failed : Phase → Bool
  is_failed awaiting_headers = false
  is_failed (streaming_body remaining) = false
  is_failed done = false
  is_failed failed = true

  abbrev pub fed : Http1Parser → Bytes → Http1Parser
  fed p bytes = record p { scratch = p.scratch ++ bytes }

  pub feed : Http1Parser → Bytes → Http1Parser × List ParseEvent
  unfolding loop
  feed p bytes = if is_failed p.phase then (p, []) else loop 3 (fed p bytes)
