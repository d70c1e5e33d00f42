-- ===== src/Router/Stack/Tests.antt =====
-- The whole stack, after two failures in a row.
use riftgate.Base.{ℕ, ◌≡◌, refl, Bool, true, false, none, some, List, [], ◌∷◌, length, arith}
use riftgate.Core.Request.{Bytes, Request, get, empty}
use riftgate.Core.Router.{F32, Outcome, contains, targets}
use riftgate.Router.Weighted.{WeightedRandomRouter}
use riftgate.Router.KvAware.{node, leaf, default_config}
use riftgate.Router.Hedged.{HedgedConfig}
use riftgate.Router.Circuit.{CircuitBreakerConfig, new, is_failure, route}
use riftgate.Router.Circuit.History.{record_all, events_of, has_streak}
use riftgate.Router.P2.Tests.{fractions}
use riftgate.Router.Stack.{inner_stack}
use riftgate.Router.Stack.Guard.{route-tripped}

abbrev two_failures : CircuitBreakerConfig
two_failures = record { failure_threshold = 2; reset_timeout = 1000; half_open_max = 1 }

abbrev hedge_config : HedgedConfig fractions
hedge_config = record {
  hedge_after_quantile = (19, 20);
  hedge_max_fraction = (1, 20);
  hedge_min_threshold_ms = 50;
  warmup_observations = 25;
}

abbrev failure : Outcome
failure = record { backend = 7; status = some 503; duration = 20; ok = false }

abbrev history : List (ℕ × Outcome)
history = (100, failure) ∷ (140, failure) ∷ []

abbrev request : Request
request = record {
  id = 1;
  method = get;
  path = [];
  headers = record { entries = [] };
  body = empty;
}

abbrev cool : F32 → Bool
cool p = false

abbrev by_length : Bytes → ℕ
by_length body = length body

abbrev weighted_state : WeightedRandomRouter
weighted_state = record {
  table = record { primary = 7; alias = 7; prob_scaled = 16777216 } ∷ [];
  backends = 7 ∷ [];
  rng_state = 1;
}

abbrev stack_state : (inner_stack cool by_length default_config fractions hedge_config).State
stack_state = (
  record { estimators = λ b. none; decisions_total = 0; hedges_total = 0; budget_blocked = 0 },
  (
    record {
      trie = record { root = node none leaf; count = 0; cap = 10 };
      hits = 0;
      misses = 0;
      breaker_rejections = 0;
    },
    weighted_state,
  ),
)

streak : has_streak 2 (events_of 7 history) ≡ true
unfolding events_of is_failure
streak = refl

route-tripped_example :
    contains
      (targets
        (route two_failures
          (inner_stack cool by_length default_config fractions hedge_config)
          (λ k. 1050)
          (record_all two_failures new history, stack_state)
          request
          (record { backends = 7 ∷ 8 ∷ [] })
          (record { signals = [] })).0)
      7
    ≡ false
route-tripped_example =
    route-tripped cool by_length default_config fractions hedge_config two_failures (λ k. 1050) 100
      history stack_state request (record { backends = 7 ∷ 8 ∷ [] }) (record { signals = [] }) 7
      (omega arith) (omega arith) (omega arith) (omega arith, (omega arith, tt)) streak refl
      (λ k. omega arith)
