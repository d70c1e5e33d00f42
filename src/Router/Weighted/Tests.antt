-- ===== src/Router/Weighted/Tests.antt =====
-- Runs of the weighted router.
use riftgate.Base.{◌≡◌, ◌≢◌, refl, Bool, true, none, some, [], ◌∷◌, leb}
use riftgate.Core.Router.{
  F32, BackendId, BackendPool, BackendSignals, closed, opened, contains, send, get_signal,
}
use riftgate.Router.Weighted.{Weights, WeightedRandomRouter, with_seed, sample, is_hot, route}
use riftgate.Router.Weighted.Choice.{IsUsable, IsCool, route-IsCool}
use riftgate.Router.Weighted.Table.{ids, after_samples, sample-configured}

abbrev weights : Weights
weights = (0, 1) ∷ (1, 3) ∷ []

abbrev seeded : WeightedRandomRouter
seeded = record {
  table =
      record { primary = 0; alias = 1; prob_scaled = 8388608 }
      ∷ record { primary = 1; alias = 1; prob_scaled = 16777216 }
      ∷ [];
  backends = 0 ∷ 1 ∷ [];
  rng_state = 42;
}

with_seed_42 : with_seed weights 42 ≡ some seeded
unfolding with_seed
with_seed_42 = refl

sample-configured_example :
    (contains (ids weights) (sample (after_samples 3 seeded)).0 ≡ true)
    × ((after_samples 3 seeded).rng_state ≢ 0)
sample-configured_example = sample-configured weights 42 3 seeded with_seed_42

-- The order of the bit patterns of positive floats is theirs: this is 0.9.
abbrev at_threshold : F32 → Bool
at_threshold p = leb 1063675494 p

abbrev three : BackendPool
three = record { backends = 0 ∷ 1 ∷ 2 ∷ [] }

-- The first backend is open, the second hot.
abbrev one_cool : BackendSignals
one_cool = record {
  signals =
      record { circuit_state = opened; gpu_pressure = none; recent_p99_ms = 0 }
      ∷ record { circuit_state = closed; gpu_pressure = some 1064514355; recent_p99_ms = 0 }
      ∷ [];
}

route-IsCool_example :
    (c : BackendId) × ((route at_threshold seeded three one_cool).0 ≡ send c)
    × IsUsable at_threshold one_cool c
    × IsCool at_threshold one_cool c
unfolding get_signal is_hot
route-IsCool_example = route-IsCool at_threshold seeded three one_cool 2 refl refl refl
