-- ===== src/Parser/Http1/Content.antt =====
-- The body of a request with a length, however its bytes arrive.
use riftgate.Base.{
  ℕ, zero, suc, ◌+◌, ◌-◌, ◌≤◌, ◌<◌, ◌≡◌, refl, sym, ◌∙◌, ap, subst, inl, inr, Bool, true, false,
  some, List, [], ◌∷◌, ◌++◌, ltb, leb, ◌==◌, length, length-append, take, drop, arith, Bool-cases,
  take-append_long, take-append_short, take-whole, drop-append, length-drop, append_nil, ltb→lt,
  le_of_ltb, ltb-eq-false,
}
use riftgate.Core.Request.{Bytes, new_headers}
use riftgate.Parser.Http1.{
  HttpStatus, complete, ParseEvent, headers_complete, body_chunk, body_complete, parse_error,
  Http1Parser, new, answered, head_round, round_from, loop, fed, feed, frame_body, is_chunked,
  owned_headers, max_header_bytes, parse_content_length,
}
use riftgate.Parser.Http1.Rounds.{
  in_body, finished, loop_again, loop_none, loop-finished, loop_all, loop_part,
}

-- The bytes of the body in some events.
abbrev pub body_of : List ParseEvent → Bytes
body_of [] = []
body_of (body_chunk b ∷ es) = b ++ body_of es
body_of (headers_complete h ∷ es) = body_of es
body_of (body_complete ∷ es) = body_of es
body_of (parse_error e ∷ es) = body_of es

-- The events of a body from its first byte on: chunks, and behind the last of them the one end, or
-- no end yet.
pub data IsBody : Bool → List ParseEvent → Type 0 where
  not_done : IsBody false []
  done : IsBody true (body_complete ∷ [])
  chunk :
      {all_there : Bool} {b : Bytes} {es : List ParseEvent}
      → IsBody all_there es
      → IsBody all_there (body_chunk b ∷ es)

abbrev pub join : List Bytes → Bytes
join [] = []
join (b ∷ bs) = b ++ join bs

leb-minus : (r n m k : ℕ) → n < r → k ≡ n + m → leb (r - n) m ≡ leb r k
leb-minus r n m k h e = ground (arith, h, e)

empty_of_length : (xs : Bytes) → length xs ≡ 0 → xs ≡ []
empty_of_length [] h = refl
empty_of_length (x ∷ xs) h = absurd (omega (arith, h))

-- The events are the body that still lacks `r` bytes when `bytes` come: chunks that hold the first
-- `r` of the bytes, and then, exactly if there are that many, its end.
abbrev pub Carries : ℕ → Bytes → List ParseEvent → Type 0
Carries r bytes es = (body_of es ≡ take r bytes) × IsBody (leb r (length bytes)) es

module _ (httparse : Bytes → HttpStatus) where
  -- The events of feeds in a row.
  pub feed_all : Http1Parser → List Bytes → List ParseEvent
  feed_all p [] = []
  feed_all p (b ∷ bs) = let (q, es) = feed httparse p b in es ++ feed_all q bs

  feed-in_body :
      (s b : Bytes) (r : ℕ)
      → feed httparse (in_body s (length s) r) b ≡ loop httparse 3 (in_body (s ++ b) (length s) r)
  unfolding feed
  feed-in_body s b r = refl

  feed-finished : (s b : Bytes) (c : ℕ) → feed httparse (finished s c) b ≡ (finished (s ++ b) c, [])
  unfolding feed
  feed-finished s b c = loop-finished httparse 2 (s ++ b) c

  feed_all-finished : (bs : List Bytes) (s : Bytes) (c : ℕ) → feed_all (finished s c) bs ≡ []
  unfolding feed_all
  feed_all-finished [] s c = refl
  feed_all-finished (b ∷ bs) s c = rw (feed-finished s b c) (feed_all-finished bs (s ++ b) c)

  -- The events of one run of the loop and those of the feeds after it.
  abbrev rest_of : Http1Parser × List ParseEvent → List Bytes → List ParseEvent
  rest_of (q, es) bs = es ++ feed_all q bs

  Carries-all :
      (r : ℕ) (b : Bytes) (bs : List Bytes)
      → r ≤ length b
      → Carries r (b ++ join bs) (body_chunk (take r b) ∷ body_complete ∷ [])
  Carries-all r b bs h =
      let count = length-append b (join bs) in
      (
        append_nil (take r b) ∙ sym (take-append_short b (join bs) r h),
        (let fits : true ≡ leb r (length (b ++ join bs)) = ground (arith, count, h) in
            subst (λ t. IsBody t (body_chunk (take r b) ∷ body_complete ∷ [])) fits (chunk done)),
      )

  Carries-part :
      (r : ℕ) (b : Bytes) (bs : List Bytes) (es : List ParseEvent)
      → length b < r
      → Carries (r - length b) (join bs) es
      → Carries r (b ++ join bs) (body_chunk b ∷ es)
  Carries-part r b bs es h (body, shape) =
      let count = length-append b (join bs) in
      let le : length b ≤ r = omega (arith, h) in
      (
        ap (λ t. b ++ t) body ∙ sym (take-append_long b (join bs) r le),
        subst (λ t. IsBody t (body_chunk b ∷ es))
            (leb-minus r (length b) (length (join bs)) _ h count) (chunk shape),
      )

  -- What is promised for the feeds after the first.
  abbrev Later : List Bytes → Type 0
  Later bs =
      (s : Bytes) (r : ℕ) → 0 < r → Carries r (join bs) (feed_all (in_body s (length s) r) bs)

  loop-Carries_part :
      (n : ℕ) (bs : List Bytes) (s : Bytes) (c r : ℕ)
      → c < length s
      → length s < c + r
      → Later bs
      → Carries r (drop c s ++ join bs) (rest_of (loop httparse (suc (suc n)) (in_body s c r)) bs)
  loop-Carries_part n bs s c r h g later =
      let size = length-drop c s in
      let whole : take (length s - c) (drop c s) ≡ drop c s =
        take-whole (drop c s) (length s - c) (omega (arith, size)) in
      let all_read : c + (length s - c) ≡ length s = omega (arith, h) in
      rw (loop_part httparse n s c r h g, whole, all_read, sym size)
        (Carries-part r (drop c s) bs (feed_all (in_body s (length s) (r - length (drop c s))) bs)
          (omega (arith, size, h, g)) (later s (r - length (drop c s)) (omega (arith, size, h, g))))

  loop-Carries :
      (n : ℕ) (bs : List Bytes) (s : Bytes) (c r : ℕ)
      → 0 < r
      → c ≤ length s
      → Later bs
      → Carries r (drop c s ++ join bs) (rest_of (loop httparse (suc (suc n)) (in_body s c r)) bs)
  loop-Carries n bs s c r h g later =
      let size = length-drop c s in
      elim (Bool-cases (ltb (length s) (c + r))) [
        | inr enough ↦
            let le = le_of_ltb (length s) (c + r) enough in
            rw (loop_all httparse n s c r h le, feed_all-finished bs s (c + r))
              (Carries-all r (drop c s) bs (omega (arith, size, le)))
        | inl short ↦
            let lt = ltb→lt (length s) (c + r) short in
            elim (Bool-cases (ltb c (length s))) [
              | inl more ↦ loop-Carries_part n bs s c r (ltb→lt c (length s) more) lt later
              | inr nothing ↦
                  let le = le_of_ltb c (length s) nothing in
                  let at_end : c ≡ length s = omega (arith, le, g) in
                  let empty = empty_of_length (drop c s) (omega (arith, size, le)) in
                  rw (loop_none httparse (suc n) s c r le, empty, at_end) (later s r h)
            ]
      ]

  feed_all-Carries : (bs : List Bytes) → Later bs
  unfolding feed_all
  feed_all-Carries [] s zero h = absurd (omega (arith, h))
  feed_all-Carries [] s (suc r) h =
      let none_yet : false ≡ leb (suc r) 0 = ground arith in
      (refl, subst (λ t. IsBody t []) none_yet not_done)
  feed_all-Carries (b ∷ bs) s r h = rw (feed-in_body s b r) (
      subst
        (λ t.
          Carries r (t ++ join bs) (rest_of (loop httparse 3 (in_body (s ++ b) (length s) r)) bs))
        (drop-append s b)
        (loop-Carries 1 bs (s ++ b) (length s) r h (omega (arith, length-append s b))
          (feed_all-Carries bs)))

  head_round-length :
      (first : Bytes) (n size : ℕ) (fields : List (Bytes × Bytes))
      → httparse first ≡ complete n fields
      → length first ≤ max_header_bytes
      → is_chunked (owned_headers new_headers fields) ≡ false
      → parse_content_length (owned_headers new_headers fields) ≡ some size
      → 0 < size
      → head_round httparse (fed httparse new first) ≡ record {
        after = in_body first (0 + n) size;
        events = headers_complete (owned_headers new_headers fields) ∷ [];
        again = true;
      }
  unfolding head_round answered frame_body
  head_round-length first n size fields parsed small plain given some_body =
      let fits = ltb-eq-false max_header_bytes (length first) small in
      let full : (size == 0) ≡ false = ground (arith, some_body) in
      rw (head_round, parsed, fits, plain, given, full) refl

  -- A request whose head is complete in its first piece, which has at most 8 KiB, and says a length
  -- greater than 0 and no chunks: its events are the head, then nothing but chunks of the body, which
  -- hold exactly the bytes behind the head up to that length, in order and in whatever pieces they
  -- come, and then, as the last event, the end of the body if all its bytes are there, else nothing.
  pub feed_all-content :
      (first : Bytes) (n size : ℕ) (fields : List (Bytes × Bytes)) (rest : List Bytes)
      → httparse first ≡ complete n fields
      → n ≤ length first
      → length first ≤ max_header_bytes
      → is_chunked (owned_headers new_headers fields) ≡ false
      → parse_content_length (owned_headers new_headers fields) ≡ some size
      → 0 < size
      → (es : List ParseEvent) × (feed_all new (first ∷ rest)
          ≡ headers_complete (owned_headers new_headers fields) ∷ es)
        × Carries size (drop n first ++ join rest) es
  unfolding feed_all feed round_from
  feed_all-content first n size fields rest parsed inside small plain given some_body =
      let head = head_round-length first n size fields parsed small plain given some_body in
      let run = loop_again httparse 2 (fed httparse new first) _ head refl in
      let same : 0 + n ≡ n = omega arith in
      (
        rest_of (loop httparse 2 (in_body first n size)) rest,
        rw (run, same) refl,
        loop-Carries 0 rest first n size some_body inside (feed_all-Carries rest),
      )
