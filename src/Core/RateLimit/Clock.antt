-- ===== src/Core/RateLimit/Clock.antt =====
-- What the wrapped 32-bit clock of rate_limit.rs does when readings are out of order or far apart.
use riftgate.Base.{
  ℕ, ◌+◌, ◌-◌, ◌*◌, ◌/◌, ◌%◌, ◌^◌, ◌≤◌, ◌<◌, ◌≡◌, ◌≢◌, refl, sym, ap, ◌∙◌, arith, Option, some,
  List, [], ◌∷◌, Bool, ltb, Bool-cases, inl, inr,
}
use native.Mathlib.Nat.{mul-le-mul_left}
use riftgate.Core.RateLimit.{
  SubjectKey, TokenBucketConfig, TokenBucketLimiter, LimitDecision, allow, deny, u32_mod, u64_mod,
  u32_max, attempt, check_loop, finish, entry_word, check, now_ms, pack, saturating_scaled_burst,
  cost_units, token_bucket_scale, after_refill, elapsed_ms, refill_scaled,
}
use riftgate.Core.RateLimit.Words.{after_refill-pack, after_refill-le, saturating_scaled_burst-le}
use riftgate.Core.RateLimit.Bounds.{now_ms-lt}
use riftgate.Core.RateLimit.Level.{check-sole_attempt}
use riftgate.Core.RateLimit.Retry.{attempt-allow, entry_word-some}

-- Every attempt stamps the word with its own reading of the clock.
attempt-pack :
    (cfg : TokenBucketConfig) (now cost word : ℕ)
    → (tokens : ℕ) × ((attempt cfg now cost word).1 ≡ pack tokens now)
unfolding attempt
attempt-pack cfg now cost word = elim (Bool-cases (ltb (after_refill cfg now word) cost)) [
  | inl e ↦ (after_refill cfg now word, rw e)
  | inr e ↦ (after_refill cfg now word - cost, rw e)
]

mul-bounds :
    (elapsed rate : ℕ)
    → 0 < rate
    → rate ≤ 65536
    → 2 ^ 31 ≤ elapsed
    → elapsed < u32_mod
    → u32_max ≤ elapsed * rate * token_bucket_scale % u64_mod / 1000
mul-bounds elapsed rate pos small long span =
    let low : elapsed ≤ elapsed * rate = grind arith in
    let high : elapsed * rate ≤ elapsed * 65536 = mul-le-mul_left elapsed small in omega arith

-- A reading up to 2^31 ms older than the stamp counts as one that is almost 2^32 ms newer.
elapsed-stale :
    (clock ahead : ℕ)
    → 0 < ahead
    → ahead ≤ 2 ^ 31
    → (2 ^ 31 ≤ elapsed_ms (now_ms clock) (now_ms (clock + ahead)))
      × (elapsed_ms (now_ms clock) (now_ms (clock + ahead)) < u32_mod)
unfolding elapsed_ms now_ms
elapsed-stale clock ahead pos near = omega arith

after_refill-stale :
    (cfg : TokenBucketConfig) (clock ahead tokens : ℕ)
    → 0 < cfg.rate_per_sec
    → cfg.rate_per_sec ≤ 65536
    → 0 < ahead
    → ahead ≤ 2 ^ 31
    → after_refill cfg (now_ms clock) (pack tokens (now_ms (clock + ahead)))
      ≡ saturating_scaled_burst cfg.burst
unfolding refill_scaled
after_refill-stale cfg clock ahead tokens pos small ahead_pos near =
    let (long, span) = elapsed-stale clock ahead ahead_pos near in
    let much =
      mul-bounds (elapsed_ms (now_ms clock) (now_ms (clock + ahead))) cfg.rate_per_sec pos small
        long span in
    after_refill-pack cfg (now_ms clock) tokens (now_ms (clock + ahead)) (now_ms-lt (clock + ahead))
    ∙ omega (arith, much, saturating_scaled_burst-le cfg.burst)

-- The caller whose clock reading is older than the stamp that another caller left, by at most 2^31
-- ms, is always admitted, however little that one left: the bucket counts as refilled. This is so
-- at every rate up to 65536 and for every cost within the burst.
pub check-stale_clock :
    (limiter : TokenBucketLimiter) (clock ahead : ℕ) (subject : SubjectKey) (first second : ℕ)
    → 0 < limiter.cfg.rate_per_sec
    → limiter.cfg.rate_per_sec ≤ 65536
    → 0 < ahead
    → ahead ≤ 2 ^ 31
    → cost_units limiter.cfg second * token_bucket_scale ≤ saturating_scaled_burst limiter.cfg.burst
    → (check (check limiter (clock + ahead) [] subject first).1 clock [] subject second).0 ≡ allow
unfolding check
check-stale_clock limiter clock ahead subject first second pos small ahead_pos near fits =
    let limiter' = (check limiter (clock + ahead) [] subject first).1 in
    let (tokens, left) =
      attempt-pack limiter.cfg (now_ms (clock + ahead))
        (cost_units limiter.cfg first * token_bucket_scale)
        (entry_word limiter subject (now_ms (clock + ahead))) in
    let word =
      entry_word-some limiter' subject (now_ms clock) _
        ((check-sole_attempt limiter (clock + ahead) subject first).1 ∙ ap some left) in
    let full = after_refill-stale limiter.cfg clock ahead tokens pos small ahead_pos near in
    (check-sole_attempt limiter' clock subject second).0
    ∙ rw word (attempt-allow limiter.cfg _ _ _ (omega (arith, full)))

elapsed-any : (clock ms : ℕ) → elapsed_ms (now_ms (clock + ms)) (now_ms clock) ≡ ms % u32_mod
unfolding elapsed_ms now_ms
elapsed-any clock ms = omega arith

-- The same attempt on a word that gains nothing is denied in the same way.
attempt-deny_again :
    (cfg : TokenBucketConfig) (clock ms cost word wait : ℕ)
    → refill_scaled cfg (ms % u32_mod) ≡ 0
    → (attempt cfg (now_ms clock) cost word).0 ≡ deny wait
    → (attempt cfg (now_ms (clock + ms)) cost (attempt cfg (now_ms clock) cost word).1).0
      ≡ deny wait
unfolding attempt
attempt-deny_again cfg clock ms cost word wait gain h = ground (
  arith,
  gain,
  elapsed-any clock ms,
  after_refill-le cfg (now_ms clock) word,
  saturating_scaled_burst-le cfg.burst,
  after_refill-pack cfg (now_ms (clock + ms)) (after_refill cfg (now_ms clock) word) (now_ms clock)
      (now_ms-lt clock),
)

-- A denied caller is denied once more, with the same waiting time, after any time `ms` for which
-- the refill comes out below one unit: the elapsed time modulo 2^32, times rate and scale, modulo
-- 2^64, is below 1000. That takes in every multiple of 2^32 ms, and every shorter time whose
-- product with the rate is a multiple of 2^48.
pub check-idle_wrap :
    (limiter : TokenBucketLimiter) (clock ms : ℕ) (subject : SubjectKey) (cost wait : ℕ)
    → ms % u32_mod * limiter.cfg.rate_per_sec * token_bucket_scale % u64_mod < 1000
    → (check limiter clock [] subject cost).0 ≡ deny wait
    → (check (check limiter clock [] subject cost).1 (clock + ms) [] subject cost).0 ≡ deny wait
unfolding check refill_scaled
check-idle_wrap limiter clock ms subject cost wait wraps denied =
    let limiter' = (check limiter clock [] subject cost).1 in
    let first = check-sole_attempt limiter clock subject cost in
    let word = entry_word-some limiter' subject (now_ms (clock + ms)) _ first.1 in
    (check-sole_attempt limiter' (clock + ms) subject cost).0
    ∙ rw word (
        attempt-deny_again limiter.cfg clock ms _ (entry_word limiter subject (now_ms clock)) wait
          (omega arith) (sym first.0 ∙ denied))

attempt-unpayable :
    (cfg : TokenBucketConfig) (now cost word : ℕ)
    → saturating_scaled_burst cfg.burst < cost
    → (attempt cfg now cost word).0 ≢ allow
unfolding attempt
attempt-unpayable cfg now cost word h = ground (arith, after_refill-le cfg now word)

finish-deny :
    (decision : LimitDecision) (written : ℕ × Bool) (retry : ℕ → LimitDecision × ℕ)
    → decision ≢ allow
    → (finish decision written retry).0 ≢ allow
unfolding finish
finish-deny allow written retry h = absurd (h refl)
finish-deny (deny wait) written retry h = λ e. cc

check_loop-unpayable :
    (cfg : TokenBucketConfig) (now cost : ℕ) (others : List (Option ℕ)) (word : ℕ)
    → saturating_scaled_burst cfg.burst < cost
    → (check_loop cfg now cost others word).0 ≢ allow
unfolding check_loop
check_loop-unpayable cfg now cost [] word h =
    finish-deny _ _ _ (attempt-unpayable cfg now cost word h)
check_loop-unpayable cfg now cost (other ∷ rest) word h =
    finish-deny _ _ _ (attempt-unpayable cfg now cost word h)

-- A cost above the burst is never admitted, in any state and against any interference.
pub check-unpayable :
    (limiter : TokenBucketLimiter) (clock : ℕ) (others : List (Option ℕ)) (subject : SubjectKey)
    (cost : ℕ)
    → saturating_scaled_burst limiter.cfg.burst < cost_units limiter.cfg cost * token_bucket_scale
    → (check limiter clock others subject cost).0 ≢ allow
unfolding check
check-unpayable limiter clock others subject cost h =
    check_loop-unpayable limiter.cfg (now_ms clock) _ others _ h
