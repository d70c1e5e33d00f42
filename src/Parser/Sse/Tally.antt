-- ===== src/Parser/Sse/Tally.antt =====
-- What the framer counts, how much it buffers, and how it ends.
use riftgate.Base.{
  ℕ, suc, ◌+◌, ◌%◌, ◌≤◌, ◌<◌, ◌≡◌, refl, Bool, true, false, Option, List, [], ◌∷◌, ◌++◌, ltb, ◌==◌,
  if◌then◌else◌, length, arith, Bool-cases, inl, inr, length-append, Option-cases, le_of_ltb,
}
use riftgate.Core.Cancel.{CancelCause}
use riftgate.Core.Request.{Bytes}
use riftgate.Parser.Sse.{
  SseFramer, ParseEvent, sse_token, sse_done, stream_cancelled, malformed_sse, new, feed, feed_loop,
  feed_byte, end_line, push_byte, dispatch, process_line, is_reading, max_line, u64_mod, newline,
  done_payload, bytes_eq, is_blank, is_empty,
}

-- The bytes of the tokens among some events.
pub token_bytes : List ParseEvent → ℕ
token_bytes [] = 0
token_bytes (sse_token payload ∷ rest) = length payload + token_bytes rest
token_bytes (sse_done ∷ rest) = token_bytes rest
token_bytes (stream_cancelled seen cause ∷ rest) = token_bytes rest
token_bytes (malformed_sse ∷ rest) = token_bytes rest

-- The events that end a stream.
pub endings : List ParseEvent → ℕ
endings [] = 0
endings (sse_token payload ∷ rest) = endings rest
endings (sse_done ∷ rest) = suc (endings rest)
endings (stream_cancelled seen cause ∷ rest) = suc (endings rest)
endings (malformed_sse ∷ rest) = suc (endings rest)

abbrev pub one_if : Bool → ℕ
one_if true = 1
one_if false = 0

token_bytes-append : (a b : List ParseEvent) → token_bytes (a ++ b) ≡ token_bytes a + token_bytes b
unfolding token_bytes
token_bytes-append [] b = omega arith
token_bytes-append (sse_token payload ∷ a) b = omega (arith, token_bytes-append a b)
token_bytes-append (sse_done ∷ a) b = token_bytes-append a b
token_bytes-append (stream_cancelled seen cause ∷ a) b = token_bytes-append a b
token_bytes-append (malformed_sse ∷ a) b = token_bytes-append a b

endings-append : (a b : List ParseEvent) → endings (a ++ b) ≡ endings a + endings b
unfolding endings
endings-append [] b = omega arith
endings-append (sse_token payload ∷ a) b = endings-append a b
endings-append (sse_done ∷ a) b = omega (arith, endings-append a b)
endings-append (stream_cancelled seen cause ∷ a) b = omega (arith, endings-append a b)
endings-append (malformed_sse ∷ a) b = omega (arith, endings-append a b)

-- What a step from `s` to `s'` with `events` keeps: the count of bytes, the one end, the bound.
pub record Keeps (s s' : SseFramer) (events : List ParseEvent) : Type 0 where
  pub seen : s'.bytes_seen ≡ (s.bytes_seen + token_bytes events) % u64_mod
  pub ends : endings events + one_if (is_reading s'.phase) ≡ one_if (is_reading s.phase)
  pub buffered : length s'.line_buf ≤ (if is_reading s'.phase then max_line else max_line + 1)

-- The counter has wrapped, and the line is as long as the phase allows.
pub record IsFramer (s : SseFramer) : Type 0 where
  pub counter : s.bytes_seen < u64_mod
  pub line : length s.line_buf ≤ (if is_reading s.phase then max_line else max_line + 1)

Keeps-IsFramer : (s s' : SseFramer) (events : List ParseEvent) → Keeps s s' events → IsFramer s'
Keeps-IsFramer s s' events k = record { counter = omega (arith, k.seen); line = k.buffered }

Keeps-refl : (s : SseFramer) → IsFramer s → Keeps s s []
unfolding token_bytes endings
Keeps-refl s v = record { seen = omega (arith, v.counter); ends = omega arith; buffered = v.line }

Keeps-trans :
    (s s' s'' : SseFramer) (a b : List ParseEvent)
    → Keeps s s' a
    → Keeps s' s'' b
    → Keeps s s'' (a ++ b)
Keeps-trans s s' s'' a b h k = record {
  seen = omega (arith, h.seen, k.seen, token_bytes-append a b);
  ends = omega (arith, h.ends, k.ends, endings-append a b);
  buffered = k.buffered;
}

dispatch-Keeps :
    (s : SseFramer) → is_reading s.phase ≡ true → IsFramer s → Keeps s (dispatch s).0 (dispatch s).1
unfolding dispatch token_bytes endings
dispatch-Keeps s on v = elim (Bool-cases (is_empty s.current_event)) [
  | inl none_yet ↦ rw none_yet (Keeps-refl s v)
  | inr some_yet ↦ elim (Bool-cases (bytes_eq s.current_event done_payload)) [
    | inl last_one ↦
        rw (some_yet, last_one)
          (record {
            seen = omega (arith, v.counter);
            ends = rw on refl;
            buffered = ground (arith, v.line);
          })
    | inr token ↦
        rw (some_yet, token) (record { seen = omega arith; ends = omega arith; buffered = v.line })
  ]
]

end_line-Keeps :
    (s : SseFramer) → is_reading s.phase ≡ true → IsFramer s → Keeps s (end_line s).0 (end_line s).1
unfolding end_line
end_line-Keeps s on v =
    let s' = record s { line_buf = []; current_event = process_line s.line_buf s.current_event } in
    let kept : Keeps s s' [] = record {
      seen = (Keeps-refl s v).seen;
      ends = (Keeps-refl s v).ends;
      buffered = rw on (omega arith);
    } in
    elim (Bool-cases (is_blank s.line_buf)) [
      | inl blank ↦ rw blank (
          Keeps-trans s s' (dispatch s').0 [] (dispatch s').1 kept
            (dispatch-Keeps s' on (Keeps-IsFramer s s' [] kept)))
      | inr other ↦ rw other kept
    ]

push_byte-Keeps :
    (s : SseFramer) (b : ℕ)
    → is_reading s.phase ≡ true
    → IsFramer s
    → Keeps s (push_byte s b).0 (push_byte s b).1
unfolding push_byte token_bytes endings
push_byte-Keeps s b on v =
    let grown = length-append s.line_buf (b ∷ []) in
    elim (Bool-cases (ltb max_line (length (s.line_buf ++ b ∷ [])))) [
      | inl long ↦ rw long (record {
        seen = omega (arith, v.counter);
        ends = rw on refl;
        buffered = ground (arith, v.line, grown, on);
      })
      | inr fits ↦ rw fits (record {
        seen = omega (arith, v.counter);
        ends = omega arith;
        buffered = rw on (le_of_ltb _ _ fits);
      })
    ]

feed_byte-Keeps :
    (s : SseFramer) (b : ℕ)
    → is_reading s.phase ≡ true
    → IsFramer s
    → Keeps s (feed_byte s b).0 (feed_byte s b).1
unfolding feed_byte
feed_byte-Keeps s b on v = elim (Bool-cases (b == newline)) [
  | inl nl ↦ rw nl (end_line-Keeps s on v)
  | inr other ↦ rw other (push_byte-Keeps s b on v)
]

feed_loop-Keeps :
    (bs : Bytes) (s : SseFramer)
    → is_reading s.phase ≡ true
    → IsFramer s
    → Keeps s (feed_loop bs s).0 (feed_loop bs s).1
unfolding feed_loop
feed_loop-Keeps [] s on v = Keeps-refl s v
feed_loop-Keeps (b ∷ bs) s on v =
    let s' = (feed_byte s b).0 in
    let kept = feed_byte-Keeps s b on v in
    elim (Bool-cases (is_reading s'.phase)) [
      | inl still ↦ rw still (
          Keeps-trans s s' (feed_loop bs s').0 (feed_byte s b).1 (feed_loop bs s').1 kept
            (feed_loop-Keeps bs s' still (Keeps-IsFramer s s' (feed_byte s b).1 kept)))
      | inr off ↦ rw off kept
    ]

feed-Keeps :
    (s : SseFramer) (observed : Option CancelCause) (bytes : Bytes)
    → IsFramer s
    → Keeps s (feed s observed bytes).0 (feed s observed bytes).1
unfolding feed token_bytes endings
feed-Keeps s observed bytes v = elim (Bool-cases (is_reading s.phase)) [
  | inr off ↦ rw off (Keeps-refl s v)
  | inl on ↦ elim (Option-cases observed) [
    | inl e ↦ rw (on, e) (feed_loop-Keeps bytes s on v)
    | inr (cause, e) ↦
        rw (on, e)
          (record {
            seen = omega (arith, v.counter);
            ends = rw on refl;
            buffered = ground (arith, v.line, on);
          })
  ]
]

-- The chunks of a stream, each with what the driver shows before it.
pub feed_run : SseFramer → List (Option CancelCause × Bytes) → SseFramer × List ParseEvent
feed_run s [] = (s, [])
feed_run s ((observed, chunk) ∷ rest) =
    let (s', events) = feed s observed chunk in
    let (s'', later) = feed_run s' rest in (s'', events ++ later)

feed_run-Keeps :
    (run : List (Option CancelCause × Bytes)) (s : SseFramer)
    → IsFramer s
    → Keeps s (feed_run s run).0 (feed_run s run).1
unfolding feed_run
feed_run-Keeps [] s v = Keeps-refl s v
feed_run-Keeps ((observed, chunk) ∷ rest) s v =
    let s' = (feed s observed chunk).0 in
    let kept = feed-Keeps s observed chunk v in
    Keeps-trans s s' (feed_run s' rest).0 (feed s observed chunk).1 (feed_run s' rest).1 kept
      (feed_run-Keeps rest s' (Keeps-IsFramer s s' (feed s observed chunk).1 kept))

new-IsFramer : IsFramer new
unfolding new
new-IsFramer = record { counter = omega arith; line = omega arith }

-- Over any chunks of a new framer, with a cancellation before any of them: the counter is the bytes
-- of all the tokens that were given, modulo 2^64; one event at most ends the stream, and one has
-- exactly if the framer has stopped reading; and no more than 1 MiB of a line is held, or one byte
-- more once the framer has stopped.
pub feed_run-tally :
    (run : List (Option CancelCause × Bytes))
    → ((feed_run new run).0.bytes_seen ≡ token_bytes (feed_run new run).1 % u64_mod)
      × (endings (feed_run new run).1 + one_if (is_reading (feed_run new run).0.phase) ≡ 1)
      × (length (feed_run new run).0.line_buf
          ≤ (if is_reading (feed_run new run).0.phase then max_line else max_line + 1))
unfolding new
feed_run-tally run =
    let kept = feed_run-Keeps run new new-IsFramer in
    (omega (arith, kept.seen), kept.ends, kept.buffered)
