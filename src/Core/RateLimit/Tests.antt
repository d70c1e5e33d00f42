-- ===== src/Core/RateLimit/Tests.antt =====
-- Runs of the rate limiter.
use riftgate.Base.{◌+◌, ◌*◌, ◌≤◌, ◌<◌, ◌≡◌, refl, none, some, List, [], ◌∷◌, arith, ℕ_discrete}
use riftgate.Core.RateLimit.{
  SubjectKey, TokenBucketConfig, TokenBucketLimiter, prompt_tokens, allow, deny, new, check,
  from_millis, unpack, cost_units, saturating_scaled_burst, token_bucket_scale,
}
use riftgate.Core.RateLimit.Words.{IsWord}
use riftgate.Core.RateLimit.Bounds.{IsValid, new-IsValid, check-IsValid}
use riftgate.Core.RateLimit.Throughput.{Call, granted, duration, granted-le}
use riftgate.Core.RateLimit.Retry.{check-retry}
use riftgate.Core.RateLimit.Clock.{check-stale_clock}

abbrev small_config : TokenBucketConfig
small_config = record {
  rate_per_sec = 2;
  burst = 3;
  cost = prompt_tokens;
  retry_after_floor = from_millis 50;
}

abbrev fresh : TokenBucketLimiter
fresh = record { cfg = small_config; state = λ subject. none }

abbrev alice : SubjectKey
alice = record { tenant = 1; route = 0; backend = none }

new-fresh : new small_config ≡ some fresh
unfolding new
new-fresh = refl

-- No tokens, stamped at 10 ms.
abbrev drained : TokenBucketLimiter
drained = record { cfg = small_config; state = λ subject. some 10 }

check-drained : (check drained 10 [] alice 1).0 ≡ deny (from_millis 501)
unfolding check ℕ_discrete
check-drained = refl

abbrev calls : List Call
calls =
    record { gap = 4; subject = alice; cost = 2 }
    ∷ record { gap = 900; subject = alice; cost = 2 }
    ∷ []

small-IsWord : IsWord small_config 0
unfolding unpack saturating_scaled_burst
small-IsWord = omega arith

payable : cost_units small_config 1 * token_bucket_scale ≤ saturating_scaled_burst 3
unfolding cost_units saturating_scaled_burst
payable = omega arith

payable_3 : cost_units small_config 3 * token_bucket_scale ≤ saturating_scaled_burst 3
unfolding cost_units saturating_scaled_burst
payable_3 = omega arith

unpayable : saturating_scaled_burst 3 < cost_units small_config 4 * token_bucket_scale
unfolding cost_units saturating_scaled_burst
unpayable = omega arith

granted-le_example : granted fresh 7 calls alice * 1000 ≤ 3 * 1000 + duration calls * 2
granted-le_example = granted-le small_config fresh 7 calls alice new-fresh

check-IsValid_example : IsValid (check fresh 10 (some 0 ∷ none ∷ []) alice 2).1
check-IsValid_example =
    check-IsValid fresh 10 (some 0 ∷ none ∷ []) alice 2 (new-IsValid small_config fresh new-fresh)
      (small-IsWord, (tt, tt))

check-retry_example : (check (check drained 10 [] alice 1).1 (10 + 501) [] alice 1).0 ≡ allow
check-retry_example =
    check-retry drained 10 501 alice 1 (from_millis 501) (omega arith) payable check-drained
      (omega arith) (omega arith) (omega arith)

check-stale_clock_example : (check (check fresh (10 + 1) [] alice 3).1 10 [] alice 3).0 ≡ allow
check-stale_clock_example =
    check-stale_clock fresh 10 1 alice 3 3 (omega arith) (omega arith) (omega arith) (omega arith)
      payable_3
