-- ===== src/Parser/Http1/Rounds.antt =====
-- The rounds of the loop: what the body's do, and that there are at most three.
use riftgate.Base.{
  ℕ, suc, ◌+◌, ◌-◌, ◌≤◌, ◌<◌, ◌≡◌, refl, ◌∙◌, true, false, [], ◌∷◌, ◌++◌, ◌==◌, length, take, drop,
  min, arith,
}
use riftgate.Core.Request.{Bytes}
use riftgate.Parser.Http1.{
  HttpStatus, body_chunk, body_complete, streaming_body, done, Http1Parser, Round, body_round,
  round_from, loop,
}

abbrev pub in_body : Bytes → ℕ → ℕ → Http1Parser
in_body scratch consumed remaining = record {
  scratch = scratch;
  consumed = consumed;
  phase = streaming_body remaining;
}

abbrev pub finished : Bytes → ℕ → Http1Parser
finished scratch consumed = record { scratch = scratch; consumed = consumed; phase = done }

body_round_none :
    (s : Bytes) (c r : ℕ)
    → length s ≤ c
    → body_round (in_body s c r) r ≡ record { after = in_body s c r; events = []; again = false }
unfolding body_round
body_round_none s c r h =
    let none_left : (length s - c == 0) ≡ true = ground (arith, h) in rw none_left refl

body_round_all :
    (s : Bytes) (c r : ℕ)
    → 0 < r
    → c + r ≤ length s
    → body_round (in_body s c r) r ≡ record {
      after = finished s (c + r);
      events = body_chunk (take r (drop c s)) ∷ body_complete ∷ [];
      again = true;
    }
unfolding body_round
body_round_all s c r h g =
    let some_left : (length s - c == 0) ≡ false = ground (arith, h, g) in
    let whole : min (length s - c) r ≡ r = omega (arith, g) in
    let last : (r - r == 0) ≡ true = ground arith in rw (some_left, whole, last) refl

body_round_part :
    (s : Bytes) (c r : ℕ)
    → c < length s
    → length s < c + r
    → body_round (in_body s c r) r ≡ record {
      after = in_body s (c + (length s - c)) (r - (length s - c));
      events = body_chunk (take (length s - c) (drop c s)) ∷ [];
      again = true;
    }
unfolding body_round
body_round_part s c r h g =
    let some_left : (length s - c == 0) ≡ false = ground (arith, h) in
    let piece : min (length s - c) r ≡ length s - c = omega (arith, g) in
    let more : (r - (length s - c) == 0) ≡ false = ground (arith, h, g) in
    rw (some_left, piece, more) refl

pub body_round_zero :
    (s : Bytes) (c : ℕ)
    → c < length s
    → body_round (in_body s c 0) 0 ≡ record {
      after = finished s (c + 0);
      events = body_chunk [] ∷ body_complete ∷ [];
      again = true;
    }
unfolding body_round
body_round_zero s c h =
    let some_left : (length s - c == 0) ≡ false = ground (arith, h) in
    let none_taken : min (length s - c) 0 ≡ 0 = omega arith in rw (some_left, none_taken) refl

module _ (httparse : Bytes → HttpStatus) where
  pub loop_again :
      (n : ℕ) (p : Http1Parser) (r : Round)
      → round_from httparse p.phase p ≡ r
      → r.again ≡ true
      → loop httparse (suc n) p
        ≡ (let (q, events) = loop httparse n r.after in (q, r.events ++ events))
  unfolding loop
  loop_again n p r e h = rw (loop, e, h) refl

  pub loop_last :
      (n : ℕ) (p : Http1Parser) (r : Round)
      → round_from httparse p.phase p ≡ r
      → r.again ≡ false
      → loop httparse (suc n) p ≡ (r.after, r.events)
  unfolding loop
  loop_last n p r e h = rw (loop, e, h) refl

  pub loop_none :
      (n : ℕ) (s : Bytes) (c r : ℕ)
      → length s ≤ c
      → loop httparse (suc n) (in_body s c r) ≡ (in_body s c r, [])
  unfolding round_from
  loop_none n s c r h = loop_last n (in_body s c r) _ (body_round_none s c r h) refl

  pub loop-finished :
      (n : ℕ) (s : Bytes) (c : ℕ) → loop httparse (suc n) (finished s c) ≡ (finished s c, [])
  unfolding round_from
  loop-finished n s c = loop_last n (finished s c) _ refl refl

  pub loop_all :
      (n : ℕ) (s : Bytes) (c r : ℕ)
      → 0 < r
      → c + r ≤ length s
      → loop httparse (suc (suc n)) (in_body s c r)
        ≡ (finished s (c + r), body_chunk (take r (drop c s)) ∷ body_complete ∷ [])
  unfolding round_from
  loop_all n s c r h g =
      loop_again (suc n) (in_body s c r) _ (body_round_all s c r h g) refl
      ∙ rw (loop-finished n s (c + r)) refl

  pub loop_part :
      (n : ℕ) (s : Bytes) (c r : ℕ)
      → c < length s
      → length s < c + r
      → loop httparse (suc (suc n)) (in_body s c r) ≡ (
        in_body s (c + (length s - c)) (r - (length s - c)),
        body_chunk (take (length s - c) (drop c s)) ∷ [],
      )
  unfolding round_from
  loop_part n s c r h g =
      loop_again (suc n) (in_body s c r) _ (body_round_part s c r h g) refl
      ∙ rw (loop_none n s (c + (length s - c)) (r - (length s - c)) (omega (arith, h))) refl
