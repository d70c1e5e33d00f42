-- ===== src/Core/RateLimit/Retry.antt =====
-- The `retry_after` of a denial, and costs that no bucket can pay.
use native.Mathlib.Nat.{mod-lt, div-add-mod, mul-le-mul_left, mul-le-mul_right}
use riftgate.Base.{
  ℕ, ◌+◌, ◌-◌, ◌*◌, ◌/◌, ◌%◌, ◌≤◌, ◌<◌, ◌≡◌, arith, some, sym, ap, ◌∙◌, [], Bool-cases, ==_iff, inl,
  inr, ◌==◌,
}
use riftgate.Core.RateLimit.{
  SubjectKey, TokenBucketConfig, TokenBucketLimiter, allow, deny, u32_mod, u64_mod, attempt,
  entry_word, check, now_ms, pack, from_millis, saturating_scaled_burst, cost_units,
  token_bucket_scale, after_refill, elapsed_ms, refill_scaled, retry_ms, scaled_per_ms,
  retry_after_for, div_ceil,
}
use riftgate.Core.RateLimit.Words.{after_refill-pack, after_refill-le, saturating_scaled_burst-le}
use riftgate.Core.RateLimit.Bounds.{now_ms-lt}
use riftgate.Core.RateLimit.Level.{check-sole_attempt}

div_ceil-covers : (a b : ℕ) → 0 < b → a ≤ div_ceil a b * b
div_ceil-covers a b h = elim (Bool-cases (a % b == 0)) [
  | inl e ↦ rw e (omega (arith, div-add-mod a b, (==_iff (a % b) 0).0 e))
  | inr e ↦ rw e (omega (arith, div-add-mod a b, mod-lt a h))
]

mul-per-le :
    (ms rate per : ℕ)
    → per * 1000 ≤ rate * token_bucket_scale
    → ms * rate * token_bucket_scale < u64_mod
    → ms * per ≤ ms * rate * token_bucket_scale % u64_mod / 1000
mul-per-le ms rate per h k =
    let grown : ms * (per * 1000) ≤ ms * (rate * token_bucket_scale) = mul-le-mul_left ms h in
    omega arith

-- The waiting time in whole milliseconds makes up the deficit.
retry_ms-covers :
    (cfg : TokenBucketConfig) (deficit : ℕ) → deficit ≤ retry_ms cfg deficit * scaled_per_ms cfg
unfolding retry_ms
retry_ms-covers cfg deficit =
    div_ceil-covers deficit (scaled_per_ms cfg) (unfold scaled_per_ms in omega arith)

refill_scaled-ge :
    (cfg : TokenBucketConfig) (ms : ℕ)
    → 0 < cfg.rate_per_sec
    → ms * cfg.rate_per_sec * token_bucket_scale < u64_mod
    → ms * scaled_per_ms cfg ≤ refill_scaled cfg ms
unfolding refill_scaled scaled_per_ms
refill_scaled-ge cfg ms pos h = mul-per-le ms cfg.rate_per_sec _ (omega arith) h

retry_after_for-ge :
    (cfg : TokenBucketConfig) (deficit : ℕ)
    → from_millis (retry_ms cfg deficit) ≤ retry_after_for cfg deficit
unfolding retry_after_for
retry_after_for-ge cfg deficit = ground arith

elapsed-later : (clock ms : ℕ) → ms < u32_mod → elapsed_ms (now_ms (clock + ms)) (now_ms clock) ≡ ms
unfolding elapsed_ms now_ms
elapsed-later clock ms h = omega arith

cost-le-later :
    (cfg : TokenBucketConfig) (clock ms cost tokens : ℕ)
    → 0 < cfg.rate_per_sec
    → cost ≤ saturating_scaled_burst cfg.burst
    → tokens ≤ saturating_scaled_burst cfg.burst
    → ms < u32_mod
    → ms * cfg.rate_per_sec * token_bucket_scale < u64_mod
    → retry_ms cfg (cost - tokens) ≤ ms
    → cost ≤ after_refill cfg (now_ms (clock + ms)) (pack tokens (now_ms clock))
cost-le-later cfg clock ms cost tokens pos fits within span h wait =
    rw
      (
        after_refill-pack cfg (now_ms (clock + ms)) tokens (now_ms clock) (now_ms-lt clock),
        elapsed-later clock ms span,
      )
      (let covers = retry_ms-covers cfg (cost - tokens) in
        let more = refill_scaled-ge cfg ms pos h in
        let longer : retry_ms cfg (cost - tokens) * scaled_per_ms cfg ≤ ms * scaled_per_ms cfg =
          mul-le-mul_right (scaled_per_ms cfg) wait in
        omega (arith, saturating_scaled_burst-le cfg.burst))

-- A denied attempt leaves the refilled tokens, and says how long to wait.
attempt-deny :
    (cfg : TokenBucketConfig) (now cost word wait : ℕ)
    → (attempt cfg now cost word).0 ≡ deny wait
    → (tokens : ℕ) × (tokens ≤ saturating_scaled_burst cfg.burst)
      × ((attempt cfg now cost word).1 ≡ pack tokens now)
      × (from_millis (retry_ms cfg (cost - tokens)) ≤ wait)
unfolding attempt
attempt-deny cfg now cost word wait h = (
  after_refill cfg now word,
  after_refill-le cfg now word,
  ground arith,
  ground (arith, retry_after_for-ge cfg (cost - after_refill cfg now word)),
)

pub attempt-allow :
    (cfg : TokenBucketConfig) (now cost word : ℕ)
    → cost ≤ after_refill cfg now word
    → (attempt cfg now cost word).0 ≡ allow
unfolding attempt
attempt-allow cfg now cost word h = ground arith

pub entry_word-some :
    (limiter : TokenBucketLimiter) (subject : SubjectKey) (now word : ℕ)
    → limiter.state subject ≡ some word
    → entry_word limiter subject now ≡ word
unfolding entry_word
entry_word-some limiter subject now word e = rw (e, entry_word)

-- A caller that was denied, whose cost the burst can pay, and that waits at least the announced
-- time and less than 2^32 ms while nobody else spends from the bucket, is then admitted; the wait
-- must be short enough that the product of time, rate and scale fits 64 bits.
pub check-retry :
    (limiter : TokenBucketLimiter) (clock ms : ℕ) (subject : SubjectKey) (cost wait : ℕ)
    → 0 < limiter.cfg.rate_per_sec
    → cost_units limiter.cfg cost * token_bucket_scale ≤ saturating_scaled_burst limiter.cfg.burst
    → (check limiter clock [] subject cost).0 ≡ deny wait
    → wait ≤ from_millis ms
    → ms < u32_mod
    → ms * limiter.cfg.rate_per_sec * token_bucket_scale < u64_mod
    → (check (check limiter clock [] subject cost).1 (clock + ms) [] subject cost).0 ≡ allow
unfolding check
check-retry limiter clock ms subject cost wait pos fits denied waited span h =
    let limiter' = (check limiter clock [] subject cost).1 in
    let first = check-sole_attempt limiter clock subject cost in
    let (tokens, within, left, announced) =
      attempt-deny limiter.cfg (now_ms clock) (cost_units limiter.cfg cost * token_bucket_scale)
        (entry_word limiter subject (now_ms clock)) wait (sym first.0 ∙ denied) in
    let word = entry_word-some limiter' subject (now_ms (clock + ms)) _ (first.1 ∙ ap some left) in
    let enough =
      cost-le-later limiter.cfg clock ms (cost_units limiter.cfg cost * token_bucket_scale) tokens
        pos fits within span h (omega arith) in
    (check-sole_attempt limiter' (clock + ms) subject cost).0
    ∙ (rw word (attempt-allow limiter.cfg _ _ _ enough))
