-- ===== src/Core/RateLimit.antt =====
-- crates/riftgate-core/src/rate_limit.rs: the token bucket over packed 64-bit words.
mod Tests
pub mod Words
pub mod Bounds
pub mod Level
pub mod Throughput
pub mod Retry
pub mod Clock
use riftgate.Base.{
  ℕ, ◌+◌, ◌-◌, ◌*◌, ◌/◌, ◌%◌, ◌^◌, min, max, Bool, true, false, ◌&&◌, Option, none, some, List, [],
  ◌∷◌, ltb, ◌==◌, if◌then◌else◌, Map, put, ℕ_discrete,
}

pub record SubjectKey : Type 0 where
  pub tenant : ℕ
  pub route : ℕ
  pub backend : Option ℕ

pub SubjectKey-discrete : Discrete SubjectKey
SubjectKey-discrete = hlevel ℕ_discrete

pub per_tenant : ℕ → SubjectKey
per_tenant tenant = record { tenant = tenant; route = 0; backend = none }

pub per_route : ℕ → ℕ → SubjectKey
per_route tenant route = record { tenant = tenant; route = route; backend = none }

-- A duration is its number of nanoseconds.
pub data LimitDecision : Type 0 where
  allow : LimitDecision
  deny : ℕ → LimitDecision

pub data CostDimension : Type 0 where
  request prompt_tokens : CostDimension

pub record TokenBucketConfig : Type 0 where
  pub rate_per_sec : ℕ
  pub burst : ℕ
  pub cost : CostDimension
  pub retry_after_floor : ℕ

abbrev pub u32_mod : ℕ
u32_mod = 2 ^ 32

abbrev pub u32_max : ℕ
u32_max = 0xffff_ffff

abbrev pub u64_mod : ℕ
u64_mod = 2 ^ 64

abbrev pub token_bucket_scale : ℕ
token_bucket_scale = 65536

abbrev pub from_millis : ℕ → ℕ
from_millis ms = ms * 1000000

abbrev pub default_config : TokenBucketConfig
default_config = record {
  rate_per_sec = 100;
  burst = 100;
  cost = request;
  retry_after_floor = from_millis 50;
}

-- `state` holds one packed word for each subject that has been seen.
pub record TokenBucketLimiter : Type 0 where
  pub cfg : TokenBucketConfig
  pub state : Map SubjectKey ℕ

-- `none` is a failed assertion.
pub new : TokenBucketConfig → Option TokenBucketLimiter
new cfg =
    if ltb 0 cfg.rate_per_sec && ltb 0 cfg.burst
    then some (record { cfg = cfg; state = λ subject. none })
    else none

-- The milliseconds since the start, given by the clock, as a u32.
pub now_ms : ℕ → ℕ
now_ms elapsed_millis = elapsed_millis % u64_mod % u32_mod

-- `(tokens << 32) | ms`: the two halves do not overlap.
pub pack : ℕ → ℕ → ℕ
pack tokens_scaled last_refill_ms = min tokens_scaled u32_max * u32_mod + last_refill_ms

pub unpack : ℕ → ℕ × ℕ
unpack word = (word / u32_mod % u32_mod, word % u32_mod)

pub saturating_scaled_burst : ℕ → ℕ
saturating_scaled_burst burst = min (burst * token_bucket_scale) u32_max

pub full_state : TokenBucketConfig → ℕ → ℕ
unfolding pack saturating_scaled_burst
full_state cfg now = pack (saturating_scaled_burst cfg.burst) now

abbrev cost_by : CostDimension → ℕ → ℕ
cost_by request requested = 1
cost_by prompt_tokens requested = max requested 1

pub cost_units : TokenBucketConfig → ℕ → ℕ
cost_units cfg requested = cost_by cfg.cost requested

abbrev pub div_ceil : ℕ → ℕ → ℕ
div_ceil a b = if a % b == 0 then a / b else a / b + 1

-- `u64::div_ceil` by a divisor that is at least one.
pub scaled_per_ms : TokenBucketConfig → ℕ
scaled_per_ms cfg = max (cfg.rate_per_sec * token_bucket_scale / 1000) 1

pub retry_ms : TokenBucketConfig → ℕ → ℕ
unfolding scaled_per_ms
retry_ms cfg deficit_scaled = div_ceil deficit_scaled (scaled_per_ms cfg)

pub retry_after_for : TokenBucketConfig → ℕ → ℕ
unfolding retry_ms
retry_after_for cfg deficit_scaled =
    let retry = from_millis (retry_ms cfg deficit_scaled) in
    if ltb retry cfg.retry_after_floor then cfg.retry_after_floor else retry

-- `u32::wrapping_sub`.
pub elapsed_ms : ℕ → ℕ → ℕ
elapsed_ms now last = (now + u32_mod - last) % u32_mod

-- The u64 products wrap, as the release profile leaves them unchecked.
pub refill_scaled : TokenBucketConfig → ℕ → ℕ
refill_scaled cfg elapsed = elapsed * cfg.rate_per_sec * token_bucket_scale % u64_mod / 1000

-- The tokens of a word after the lazy refill at `now`.
pub after_refill : TokenBucketConfig → ℕ → ℕ → ℕ
unfolding unpack elapsed_ms refill_scaled saturating_scaled_burst
after_refill cfg now word =
    let (tokens_scaled, last_refill_ms) = unpack word in
    min (tokens_scaled + refill_scaled cfg (elapsed_ms now last_refill_ms))
      (saturating_scaled_burst cfg.burst)

-- One round of the loop on the word that it observed: the decision and the word that it would
-- write.
pub attempt : TokenBucketConfig → ℕ → ℕ → ℕ → LimitDecision × ℕ
unfolding after_refill pack retry_after_for
attempt cfg now cost_scaled observed =
    let tokens = after_refill cfg now observed in
    if ltb tokens cost_scaled
    then (deny (retry_after_for cfg (cost_scaled - tokens)), pack tokens now)
    else (allow, pack (tokens - cost_scaled) now)

-- `compare_exchange`: the word afterwards, and whether the write took place.
pub compare_exchange : ℕ → ℕ → ℕ → ℕ × Bool
compare_exchange current observed new_word =
    if current == observed then (new_word, true) else (current, false)

abbrev overwritten : ℕ → Option ℕ → ℕ
overwritten word none = word
overwritten word (some w) = w

-- What a round does after its attempt; `retry` is the rest of the loop on the current word. A
-- denial ends the loop whether its write took place or not.
pub finish : LimitDecision → ℕ × Bool → (ℕ → LimitDecision × ℕ) → LimitDecision × ℕ
finish (deny wait) (word, written) retry = (deny wait, word)
finish allow (word, true) retry = (allow, word)
finish allow (word, false) retry = retry word

-- The loop. For each round the schedule says which word, if any, another thread stores between
-- the load and the exchange; after its last entry nobody interferes.
pub check_loop : TokenBucketConfig → ℕ → ℕ → List (Option ℕ) → ℕ → LimitDecision × ℕ
unfolding attempt compare_exchange finish
check_loop cfg now cost_scaled [] word =
    let (decision, new_word) = attempt cfg now cost_scaled word in
    finish decision (compare_exchange word word new_word) (λ w. (decision, w))
check_loop cfg now cost_scaled (other ∷ rest) word =
    let (decision, new_word) = attempt cfg now cost_scaled word in
    let again = check_loop cfg now cost_scaled rest in
    finish decision (compare_exchange (overwritten word other) word new_word) again

-- A new subject starts with a full bucket.
pub entry_word : TokenBucketLimiter → SubjectKey → ℕ → ℕ
unfolding full_state
entry_word limiter subject now = elim (limiter.state subject) [
  | none ↦ full_state limiter.cfg now
  | some word ↦ word
]

pub check :
    TokenBucketLimiter → ℕ → List (Option ℕ) → SubjectKey → ℕ → LimitDecision × TokenBucketLimiter
unfolding cost_units entry_word check_loop now_ms SubjectKey-discrete
check limiter elapsed_millis others subject cost =
    let now = now_ms elapsed_millis in
    let cost_scaled = cost_units limiter.cfg cost * token_bucket_scale in
    let (decision, word) =
      check_loop limiter.cfg now cost_scaled others (entry_word limiter subject now) in
    (decision, record limiter { state = put SubjectKey-discrete limiter.state subject word })

-- `NoopLimiter`.
pub noop_check : SubjectKey → ℕ → LimitDecision
noop_check subject cost = allow
