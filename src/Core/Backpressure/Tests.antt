-- ===== src/Core/Backpressure/Tests.antt =====
-- Runs of the admission policy.
use mathlib.Core.Option.{get_or}
use riftgate.Base.{◌≡◌, refl, some, [], ◌∷◌, ◌++◌, false, if◌then◌else◌}
use riftgate.Core.Backpressure.{HighWaterPolicy, new, on_enqueue, run, admit, reject, queue_full}
use riftgate.Core.Backpressure.Hysteresis.{last_crossing, on_enqueue-run}

abbrev policy : HighWaterPolicy
policy = record { high_water = 8; low_water = 3; retry_after = 500; shedding = false }

new-policy : new 8 3 500 ≡ some policy
unfolding new
new-policy = refl

on_enqueue_band : (on_enqueue (run policy (9 ∷ 5 ∷ [])) 4).0 ≡ reject queue_full 500
unfolding on_enqueue run
on_enqueue_band = refl

on_enqueue-run_example : (on_enqueue (run policy (9 ∷ 5 ∷ [])) 4).0 ≡ (
    if get_or (last_crossing 8 3 ((9 ∷ 5 ∷ []) ++ 4 ∷ [])) false
    then reject queue_full 500
    else admit)
on_enqueue-run_example = on_enqueue-run 8 3 500 policy (9 ∷ 5 ∷ []) 4 new-policy
