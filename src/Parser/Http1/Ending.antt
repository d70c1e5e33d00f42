-- ===== src/Parser/Http1/Ending.antt =====
-- The loop of `feed` ends: three rounds are enough.
use riftgate.Base.{
  ℕ, suc, ◌+◌, ◌≡◌, refl, sym, ◌∙◌, ap, inl, inr, ◌⊎◌, Bool, true, false, none, some, List, ◌++◌,
  ltb, ◌==◌, ltb→lt, le_of_ltb, length, drop, arith, Bool-cases,
}
use riftgate.Core.Request.{Bytes, Headers, new_headers}
use riftgate.Parser.Http1.{
  HttpStatus, complete, partial, refused, ParseEvent, Phase, awaiting_headers, streaming_body, done,
  failed, Http1Parser, answered, head_round, round_from, loop, frame_body, is_chunked,
  owned_headers, max_header_bytes, parse_content_length,
}
use riftgate.Parser.Http1.Rounds.{
  in_body, body_round_zero, loop_again, loop_last, loop_none, loop-finished, loop_all, loop_part,
}

abbrev is_awaiting : Phase → Bool
is_awaiting awaiting_headers = true
is_awaiting (streaming_body r) = false
is_awaiting done = false
is_awaiting failed = false

frame_body-phase : (h : Headers) → is_awaiting (frame_body h).0 ≡ false
unfolding frame_body
frame_body-phase h = elim (Bool-cases (is_chunked h)) [
  | inl chunked ↦ rw chunked refl
  | inr plain ↦ rw plain (
      let size : ℕ = elim (parse_content_length h) [ none ↦ 0 | some n ↦ n ] in
      elim (Bool-cases (size == 0)) [ inl none_here ↦ rw none_here refl | inr body ↦ rw body refl ])
]

module _ (httparse : Bytes → HttpStatus) where
  -- Two rounds are enough.
  abbrev Ends : Http1Parser → Type 0
  Ends p = (m : ℕ) → loop httparse (suc (suc m)) p ≡ loop httparse 2 p

  Ends-body : (s : Bytes) (c r : ℕ) → Ends (in_body s c r)
  unfolding round_from
  Ends-body s c r m = elim (Bool-cases (ltb c (length s))) [
    | inr none_left ↦
        let h = le_of_ltb c (length s) none_left in
        loop_none httparse (suc m) s c r h ∙ sym (loop_none httparse 1 s c r h)
    | inl some_left ↦
        let h = ltb→lt c (length s) some_left in
        elim (Bool-cases (ltb (length s) (c + r))) [
          | inl part ↦
              let g = ltb→lt (length s) (c + r) part in
              loop_part httparse m s c r h g ∙ sym (loop_part httparse 0 s c r h g)
          | inr all_there ↦
              let g = le_of_ltb (length s) (c + r) all_there in
              elim (Bool-cases (ltb 0 r)) [
                | inl some_body ↦
                    let k = ltb→lt 0 r some_body in
                    loop_all httparse m s c r k g ∙ sym (loop_all httparse 0 s c r k g)
                | inr no_body ↦
                    let zero_left : r ≡ 0 = omega (arith, le_of_ltb 0 r no_body) in
                    rw zero_left (
                      loop_again httparse (suc m) (in_body s c 0) _ (body_round_zero s c h) refl
                      ∙ rw (loop-finished httparse m s (c + 0), loop-finished httparse 0 s (c + 0))
                          refl
                      ∙ sym (loop_again httparse 1 (in_body s c 0) _ (body_round_zero s c h) refl))
              ]
        ]
  ]

  Ends-from :
      (q : Phase) (s : Bytes) (c : ℕ)
      → is_awaiting q ≡ false
      → Ends (record { scratch = s; consumed = c; phase = q })
  unfolding round_from
  Ends-from awaiting_headers s c h = cc h
  Ends-from (streaming_body r) s c h = Ends-body s c r
  Ends-from done s c h =
      λ m. loop-finished httparse (suc m) s c ∙ sym (loop-finished httparse 1 s c)
  Ends-from failed s c h = λ m.
      loop_last httparse (suc m) (record { scratch = s; consumed = c; phase = failed }) _ refl refl
      ∙ sym
          (loop_last httparse 1 (record { scratch = s; consumed = c; phase = failed }) _ refl refl)

  answered-phase :
      (p : Http1Parser) (a : HttpStatus)
      → ((answered p a).again ≡ false) ⊎ (is_awaiting (answered p a).after.phase ≡ false)
  unfolding answered
  answered-phase p (complete n fields) = inr (frame_body-phase (owned_headers new_headers fields))
  answered-phase p partial = inl refl
  answered-phase p (refused e) = inl refl

  -- A round of the head asks for another only if the parser no longer waits for the head.
  head_round-phase :
      (p : Http1Parser)
      → ((head_round httparse p).again ≡ false)
        ⊎ (is_awaiting (head_round httparse p).after.phase ≡ false)
  unfolding head_round
  head_round-phase p = elim (Bool-cases (ltb max_header_bytes (length p.scratch))) [
    | inl large ↦ inl (rw large refl)
    | inr small ↦ rw small (answered-phase p (httparse (drop p.consumed p.scratch)))
  ]

  loop-three_awaiting :
      (s : Bytes) (c m : ℕ)
      → let p : Http1Parser = record { scratch = s; consumed = c; phase = awaiting_headers } in
        loop httparse (suc (suc (suc m))) p ≡ loop httparse 3 p
  unfolding round_from
  loop-three_awaiting s c m =
      let p : Http1Parser = record { scratch = s; consumed = c; phase = awaiting_headers } in
      let r = head_round httparse p in
      let last_round : r.again ≡ false → loop httparse (suc (suc (suc m))) p ≡ loop httparse 3 p =
        λ last.
          loop_last httparse (suc (suc m)) p r refl last
          ∙ sym (loop_last httparse 2 p r refl last) in
      elim (Bool-cases r.again) [
        | inr last ↦ last_round last
        | inl more ↦ elim (head_round-phase p) [
          | inl last ↦ last_round last
          | inr moved ↦
              let same = Ends-from r.after.phase r.after.scratch r.after.consumed moved m in
              loop_again httparse (suc (suc m)) p r refl more
              ∙ ap (λ (x : Http1Parser × List ParseEvent). (x.0, r.events ++ x.1)) same
              ∙ sym (loop_again httparse 2 p r refl more)
        ]
      ]

  loop-three_from :
      (q : Phase) (s : Bytes) (c m : ℕ)
      → let p : Http1Parser = record { scratch = s; consumed = c; phase = q } in
        loop httparse (suc (suc (suc m))) p ≡ loop httparse 3 p
  loop-three_from awaiting_headers s c m = loop-three_awaiting s c m
  loop-three_from (streaming_body r) s c m =
      Ends-from (streaming_body r) s c refl (suc m) ∙ sym (Ends-from (streaming_body r) s c refl 1)
  loop-three_from done s c m = Ends-from done s c refl (suc m) ∙ sym (Ends-from done s c refl 1)
  loop-three_from failed s c m =
      Ends-from failed s c refl (suc m) ∙ sym (Ends-from failed s c refl 1)

  -- The loop of one feed has at most three rounds: with a greater bound it does the same.
  pub loop-three :
      (p : Http1Parser) (m : ℕ) → loop httparse (suc (suc (suc m))) p ≡ loop httparse 3 p
  loop-three p m = loop-three_from p.phase p.scratch p.consumed m
