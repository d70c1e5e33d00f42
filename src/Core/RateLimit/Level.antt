-- ===== src/Core/RateLimit/Level.antt =====
-- What is left in a bucket and what time adds to it, and the check of one undisturbed caller.
use riftgate.Base.{
  ℕ, ◌+◌, ◌-◌, ◌*◌, ◌%◌, ◌≤◌, ◌<◌, ◌≡◌, refl, arith, Option, none, some, List, [], true,
  Option-cases, inl, inr, ==_refl, put_self, put_other, ap, ◌≢◌,
}
use riftgate.Core.RateLimit.{
  SubjectKey, SubjectKey-discrete, TokenBucketConfig, TokenBucketLimiter, LimitDecision, allow,
  deny, u32_mod, attempt, check_loop, compare_exchange, finish, full_state, entry_word, check,
  now_ms, pack, unpack, saturating_scaled_burst, cost_units, token_bucket_scale, after_refill,
  elapsed_ms, refill_scaled,
}
use riftgate.Core.RateLimit.Words.{unpack-pack}
use riftgate.Core.RateLimit.Bounds.{now_ms-lt}

pub finish-written : (r : LimitDecision × ℕ) → finish r.0 (r.1, true) (λ w. (r.0, w)) ≡ r
unfolding finish
finish-written (deny wait, word) = refl
finish-written (allow, word) = refl

-- With nobody interfering the loop is one attempt.
pub check_loop-alone :
    (cfg : TokenBucketConfig) (now cost word : ℕ)
    → check_loop cfg now cost [] word ≡ attempt cfg now cost word
unfolding check_loop compare_exchange
check_loop-alone cfg now cost word = rw (==_refl word) (finish-written (attempt cfg now cost word))

-- The wrapped difference of two clock readings is at most the true one.
pub elapsed_ms-le :
    (last spare clock word : ℕ)
    → last + spare ≡ clock
    → word % u32_mod ≡ last % u32_mod
    → elapsed_ms (now_ms clock) (word % u32_mod) ≤ spare
unfolding elapsed_ms now_ms
elapsed_ms-le last spare clock word h e = omega arith

refill_scaled-le :
    (cfg : TokenBucketConfig) (elapsed gap : ℕ)
    → elapsed ≤ gap
    → refill_scaled cfg elapsed * 1000 ≤ gap * cfg.rate_per_sec * token_bucket_scale
unfolding refill_scaled
refill_scaled-le cfg elapsed gap h =
    let mono : elapsed * cfg.rate_per_sec ≤ gap * cfg.rate_per_sec = grind arith in omega arith

-- What a decision takes out of the bucket.
abbrev pub paid : LimitDecision → ℕ → ℕ
paid allow cost = cost
paid (deny wait) cost = 0

after_refill-bound :
    (cfg : TokenBucketConfig) (last spare clock word : ℕ)
    → last + spare ≡ clock
    → word % u32_mod ≡ last % u32_mod
    → after_refill cfg (now_ms clock) word * 1000
      ≤ (unpack word).0 * 1000 + spare * cfg.rate_per_sec * token_bucket_scale
unfolding after_refill unpack
after_refill-bound cfg last spare clock word h e = omega (
  arith,
  refill_scaled-le cfg (elapsed_ms (now_ms clock) (word % u32_mod)) spare
      (elapsed_ms-le last spare clock word h e),
)

-- The word of a bucket at a clock reading: what is left and what time will add is at most `level`
-- thousandths of a scaled token.
pub record Level (cfg : TokenBucketConfig) (word clock level : ℕ) : Type 0 where
  pub last : ℕ
  pub spare : ℕ
  pub past : last + spare ≡ clock
  pub stamp : word % u32_mod ≡ last % u32_mod
  pub left : (unpack word).0 * 1000 + spare * cfg.rate_per_sec * token_bucket_scale ≤ level

pack-stamp : (tokens clock : ℕ) → pack tokens (now_ms clock) % u32_mod ≡ clock % u32_mod
unfolding pack now_ms
pack-stamp tokens clock = omega arith

unpack-pack_le : (tokens now : ℕ) → now < u32_mod → (unpack (pack tokens now)).0 ≤ tokens
unpack-pack_le tokens now h = ground (arith, unpack-pack tokens now h)

pack-Level :
    (cfg : TokenBucketConfig) (tokens clock level : ℕ)
    → tokens * 1000 ≤ level
    → Level cfg (pack tokens (now_ms clock)) clock level
pack-Level cfg tokens clock level h = record {
  last = clock;
  spare = 0;
  past = omega arith;
  stamp = pack-stamp tokens clock;
  left = omega (arith, unpack-pack_le tokens (now_ms clock) (now_ms-lt clock));
}

Level-later :
    (cfg : TokenBucketConfig) (word clock gap level : ℕ)
    → Level cfg word clock level
    → Level cfg word (clock + gap) (level + gap * cfg.rate_per_sec * token_bucket_scale)
Level-later cfg word clock gap level v = record {
  last = v.last;
  spare = v.spare + gap;
  past = omega arith;
  stamp = v.stamp;
  left = omega arith;
}

pub attempt-Level :
    (cfg : TokenBucketConfig) (cost word clock level : ℕ)
    → Level cfg word clock level
    → (paid (attempt cfg (now_ms clock) cost word).0 cost * 1000 ≤ level)
      × Level cfg
          (attempt cfg (now_ms clock) cost word).1
          clock
          (level - paid (attempt cfg (now_ms clock) cost word).0 cost * 1000)
unfolding attempt
attempt-Level cfg cost word clock level v = ground (
  arith,
  after_refill-bound cfg v.last v.spare clock word v.past v.stamp,
  pack-Level cfg (after_refill cfg (now_ms clock) word) clock level,
  pack-Level cfg (after_refill cfg (now_ms clock) word - cost) clock (level - cost * 1000),
)

-- A bucket that has not been seen counts as full.
abbrev pub BucketLevel : TokenBucketConfig → Option ℕ → ℕ → ℕ → Type 0
BucketLevel cfg none clock level = saturating_scaled_burst cfg.burst * 1000 ≤ level
BucketLevel cfg (some word) clock level = Level cfg word clock level

pub BucketLevel-later :
    (cfg : TokenBucketConfig) (bucket : Option ℕ) (clock gap level : ℕ)
    → BucketLevel cfg bucket clock level
    → BucketLevel cfg bucket (clock + gap) (level + gap * cfg.rate_per_sec * token_bucket_scale)
BucketLevel-later cfg none clock gap level v = omega arith
BucketLevel-later cfg (some word) clock gap level v = Level-later cfg word clock gap level v

pub entry_word-Level :
    (limiter : TokenBucketLimiter) (subject : SubjectKey) (clock level : ℕ)
    → BucketLevel limiter.cfg (limiter.state subject) clock level
    → Level limiter.cfg (entry_word limiter subject (now_ms clock)) clock level
unfolding entry_word full_state
entry_word-Level limiter subject clock level v = elim (Option-cases (limiter.state subject)) [
  | inl e ↦ rw (e, entry_word) (pack-Level limiter.cfg _ clock level (rw e at v))
  | inr (word, e) ↦ rw (e, entry_word) (rw e at v)
]

-- One undisturbed attempt on the subject's own word.
abbrev pub sole_attempt : TokenBucketLimiter → ℕ → SubjectKey → ℕ → LimitDecision × ℕ
sole_attempt limiter clock subject cost =
    attempt limiter.cfg (now_ms clock) (cost_units limiter.cfg cost * token_bucket_scale)
      (entry_word limiter subject (now_ms clock))

pub check-sole_attempt :
    (limiter : TokenBucketLimiter) (clock : ℕ) (subject : SubjectKey) (cost : ℕ)
    → ((check limiter clock [] subject cost).0 ≡ (sole_attempt limiter clock subject cost).0)
      × ((check limiter clock [] subject cost).1.state subject
          ≡ some (sole_attempt limiter clock subject cost).1)
unfolding check
check-sole_attempt limiter clock subject cost =
    let alone =
      check_loop-alone limiter.cfg (now_ms clock) (cost_units limiter.cfg cost * token_bucket_scale)
        (entry_word limiter subject (now_ms clock)) in
    (ap (λ r. r.0) alone, rw alone (put_self SubjectKey-discrete limiter.state subject _))

pub check-state_other :
    (limiter : TokenBucketLimiter) (clock : ℕ) (others : List (Option ℕ)) (subject j : SubjectKey)
    (cost : ℕ)
    → subject ≢ j
    → (check limiter clock others subject cost).1.state j ≡ limiter.state j
unfolding check
check-state_other limiter clock others subject j cost h =
    put_other SubjectKey-discrete limiter.state subject j _ h

pub check-cfg :
    (limiter : TokenBucketLimiter) (clock : ℕ) (others : List (Option ℕ)) (subject : SubjectKey)
    (cost : ℕ)
    → (check limiter clock others subject cost).1.cfg ≡ limiter.cfg
unfolding check
check-cfg limiter clock others subject cost = refl
