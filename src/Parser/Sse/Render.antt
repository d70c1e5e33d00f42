-- ===== src/Parser/Sse/Render.antt =====
-- Streams that a server writes event by event, and what the framer reads from them.
use riftgate.Base.{
  append_assoc, append_nil, ℕ, ◌+◌, ◌%◌, ◌≤◌, ◌≡◌, refl, false, none, List, [], ◌∷◌, ◌++◌, map,
  ◌==◌, if◌then◌else◌, length, arith, Bool-cases, inl, inr, ◌∙◌, ap, length-append, All,
}
use riftgate.Core.Request.{Bytes}
use riftgate.Core.Router.{contains}
use riftgate.Parser.Sse.{
  SseFramer, ParseEvent, sse_token, sse_done, reading, done, new, feed, feed_loop, feed_byte,
  end_line, push_byte, dispatch, process_line, is_reading, data_prefix, done_payload, newline,
  carriage_return, max_line, u64_mod, is_empty, is_byte, last, strip_cr, strip_prefix, bytes_eq,
  is_blank,
}

-- One event as a `data:` line with a blank line after it.
pub render : Bytes → Bytes
render payload = (data_prefix ++ b' ' ∷ payload) ++ newline ∷ newline ∷ []

-- A stream of payloads that ends with the sentinel.
pub render_all : List Bytes → Bytes
unfolding render
render_all [] = render done_payload
render_all (payload ∷ payloads) = render payload ++ render_all payloads

-- What fits into one line of its own: some bytes, no newline, no carriage return at the end, not the
-- sentinel, and not too long.
pub record IsPayload (payload : Bytes) : Type 0 where
  pub some_bytes : is_empty payload ≡ false
  pub one_line : contains payload newline ≡ false
  pub no_cr : is_byte carriage_return (last payload) ≡ false
  pub not_done : bytes_eq payload done_payload ≡ false
  pub fits : length payload + 6 ≤ max_line

-- A framer within a stream, with `line` read of the line and `current` of the event.
abbrev within : Bytes → Bytes → ℕ → SseFramer
within line current seen = record {
  line_buf = line;
  current_event = current;
  bytes_seen = seen;
  phase = reading;
}

append_one : (a : Bytes) (x : ℕ) (b : Bytes) → (a ++ x ∷ []) ++ b ≡ a ++ x ∷ b
append_one [] x b = refl
append_one (y ∷ a) x b = ap (λ t. y ∷ t) (append_one a x b)

feed_byte-push :
    (line current : Bytes) (seen x : ℕ)
    → (x == newline) ≡ false
    → length line + 1 ≤ max_line
    → feed_byte (within line current seen) x ≡ (within (line ++ x ∷ []) current seen, [])
unfolding feed_byte push_byte
feed_byte-push line current seen x e h = ground (arith, length-append line (x ∷ []))

-- A piece without a newline is added to the line.
feed_loop-line :
    (bs rest line current : Bytes) (seen : ℕ)
    → contains bs newline ≡ false
    → length line + length bs ≤ max_line
    → feed_loop (bs ++ rest) (within line current seen)
      ≡ feed_loop rest (within (line ++ bs) current seen)
unfolding feed_loop
feed_loop-line [] rest line current seen free h = rw (append_nil line) refl
feed_loop-line (x ∷ bs) rest line current seen free h = elim (Bool-cases (x == newline)) [
  | inl nl ↦ absurd (ground (arith, nl))
  | inr other ↦ rw (feed_byte-push line current seen x other (omega arith)) (
      feed_loop-line bs rest (line ++ x ∷ []) current seen (ground (arith, other))
        (omega (arith, length-append line (x ∷ [])))
      ∙ ap (λ t. feed_loop rest (within t current seen)) (append_one line x bs))
]

strip_cr-id : (line : Bytes) → is_byte carriage_return (last line) ≡ false → strip_cr line ≡ line
unfolding strip_cr
strip_cr-id line e = rw e

process_line-data :
    (payload : Bytes)
    → is_empty payload ≡ false
    → is_byte carriage_return (last payload) ≡ false
    → process_line (data_prefix ++ b' ' ∷ payload) [] ≡ payload
unfolding process_line last strip_prefix
process_line-data [] some_bytes no_cr = cc
process_line-data (x ∷ xs) some_bytes no_cr =
    rw (strip_cr-id (data_prefix ++ b' ' ∷ x ∷ xs) no_cr) refl

end_line-line :
    (line payload : Bytes) (seen : ℕ)
    → process_line line [] ≡ payload
    → is_blank line ≡ false
    → end_line (within line [] seen) ≡ (within [] payload seen, [])
unfolding end_line
end_line-line line payload seen e b = rw (b, e) refl

end_line-blank :
    (payload : Bytes) (seen : ℕ)
    → end_line (within [] payload seen) ≡ dispatch (within [] payload seen)
unfolding end_line process_line strip_cr strip_prefix last
end_line-blank payload seen = refl

dispatch-token :
    (payload : Bytes) (seen : ℕ)
    → IsPayload payload
    → dispatch (within [] payload seen)
      ≡ (within [] [] ((seen + length payload) % u64_mod), sse_token payload ∷ [])
unfolding dispatch
dispatch-token payload seen v = rw (v.some_bytes, v.not_done) refl

-- The rest of the loop after one line.
abbrev continue : Bytes → SseFramer × List ParseEvent → SseFramer × List ParseEvent
continue rest (s, events) =
    if is_reading s.phase
    then ((feed_loop rest s).0, events ++ (feed_loop rest s).1)
    else (s, events)

feed_loop-newline :
    (rest : Bytes) (s : SseFramer) → feed_loop (newline ∷ rest) s ≡ continue rest (end_line s)
unfolding feed_loop feed_byte
feed_loop-newline rest s = refl

-- The blank line after a data line, for the payload of any event.
feed_loop-newlines :
    (line payload rest : Bytes) (seen : ℕ)
    → process_line line [] ≡ payload
    → is_blank line ≡ false
    → feed_loop (newline ∷ newline ∷ rest) (within line [] seen)
      ≡ continue rest (dispatch (within [] payload seen))
feed_loop-newlines line payload rest seen e b =
    feed_loop-newline (newline ∷ rest) (within line [] seen)
    ∙ ap (continue (newline ∷ rest)) (end_line-line line payload seen e b)
    ∙ feed_loop-newline rest (within [] payload seen)
    ∙ ap (continue rest) (end_line-blank payload seen)

-- From the start of a line and an event, an event that is written out is read as its payload.
feed_loop-render :
    (payload rest : Bytes) (seen : ℕ)
    → IsPayload payload
    → feed_loop (render payload ++ rest) (within [] [] seen) ≡ (
      (feed_loop rest (within [] [] ((seen + length payload) % u64_mod))).0,
      sse_token payload ∷ (feed_loop rest (within [] [] ((seen + length payload) % u64_mod))).1,
    )
unfolding render
feed_loop-render payload rest seen v =
    ap (λ bytes. feed_loop bytes (within [] [] seen))
      (append_assoc (data_prefix ++ b' ' ∷ payload) (newline ∷ newline ∷ []) rest)
    ∙ feed_loop-line (data_prefix ++ b' ' ∷ payload) (newline ∷ newline ∷ rest) [] [] seen
        (ground (arith, v.one_line)) (omega (arith, v.fits))
    ∙ feed_loop-newlines (data_prefix ++ b' ' ∷ payload) payload rest seen
        (process_line-data payload v.some_bytes v.no_cr) refl
    ∙ rw (dispatch-token payload seen v) refl

dispatch-done :
    (seen : ℕ)
    → dispatch (within [] done_payload seen)
      ≡ (record (within [] [] seen) { phase = done }, sse_done ∷ [])
unfolding dispatch bytes_eq
dispatch-done seen = refl

feed_loop-render_done :
    (seen : ℕ)
    → feed_loop (render done_payload) (within [] [] seen)
      ≡ (record (within [] [] seen) { phase = done }, sse_done ∷ [])
unfolding render last
feed_loop-render_done seen =
    feed_loop-line (data_prefix ++ b' ' ∷ done_payload) (newline ∷ newline ∷ []) [] [] seen refl
      (omega arith)
    ∙ feed_loop-newlines (data_prefix ++ b' ' ∷ done_payload) done_payload [] seen
        (process_line-data done_payload refl refl) refl
    ∙ ap (continue []) (dispatch-done seen)

feed_loop-render_all :
    (payloads : List Bytes) (seen : ℕ)
    → All IsPayload payloads
    → (feed_loop (render_all payloads) (within [] [] seen)).1
      ≡ map sse_token payloads ++ sse_done ∷ []
unfolding render_all
feed_loop-render_all [] seen v = rw (feed_loop-render_done seen) refl
feed_loop-render_all (payload ∷ payloads) seen (v, vs) =
    rw (feed_loop-render payload (render_all payloads) seen v) (
      ap (λ t. sse_token payload ∷ t)
        (feed_loop-render_all payloads ((seen + length payload) % u64_mod) vs))

-- A new framer that is fed a stream written event by event, with the sentinel at its end, gives
-- one token for each payload, in order and with its bytes, and then the end; each payload must be
-- one that fits into a line of its own. A payload may hold a carriage return that is not its last
-- byte: it is passed on like any other byte.
pub feed-render_all :
    (payloads : List Bytes)
    → All IsPayload payloads
    → (feed new none (render_all payloads)).1 ≡ map sse_token payloads ++ sse_done ∷ []
unfolding feed new
feed-render_all payloads v = feed_loop-render_all payloads 0 v
