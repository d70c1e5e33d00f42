-- ===== src/Core/Backpressure/Hysteresis.antt =====
-- The two watermarks of `HighWaterPolicy::on_enqueue`, against the history of queue depths.
use mathlib.Core.Option.{get_or}
use riftgate.Base.{
  ℕ, ◌<◌, ◌≡◌, refl, Bool, true, false, Option, none, some, List, [], ◌∷◌, ◌++◌, arith, leb,
  if◌then◌else◌,
}
use riftgate.Core.Backpressure.{HighWaterPolicy, admit, reject, queue_full, new, on_enqueue, run}

-- A depth at the high mark or above starts shedding, one at the low mark or below ends it.
pub crossing : ℕ → ℕ → ℕ → Option Bool
crossing high low depth =
    if leb high depth then some true else if leb depth low then some false else none

abbrev or_else : Option Bool → Option Bool → Option Bool
or_else (some b) o = some b
or_else none o = o

-- The last crossing of a history, oldest depth first.
pub last_crossing : ℕ → ℕ → List ℕ → Option Bool
unfolding crossing
last_crossing high low [] = none
last_crossing high low (depth ∷ rest) =
    or_else (last_crossing high low rest) (crossing high low depth)

-- With the low mark below the high one, the policy sheds after a history exactly if the last depth
-- of it that lies outside the band between the marks was at the high mark or above; if every depth
-- lies inside the band, the policy is as it was.
pub shedding-run :
    (p : HighWaterPolicy) (depths : List ℕ)
    → p.low_water < p.high_water
    → (run p depths).shedding ≡ get_or (last_crossing p.high_water p.low_water depths) p.shedding
unfolding run last_crossing
shedding-run p [] h = refl
shedding-run p (depth ∷ rest) h = ground (arith, shedding-run (on_enqueue p depth).1 rest h)

-- No call changes the marks or the retry time.
run-marks :
    (p : HighWaterPolicy) (depths : List ℕ)
    → ((run p depths).high_water ≡ p.high_water)
      × ((run p depths).low_water ≡ p.low_water)
      × ((run p depths).retry_after ≡ p.retry_after)
unfolding run
run-marks p [] = (refl, refl, refl)
run-marks p (depth ∷ rest) = run-marks (on_enqueue p depth).1 rest

new-marks :
    (high low retry : ℕ) (p : HighWaterPolicy)
    → new high low retry ≡ some p
    → (low < high)
      × (p.high_water ≡ high)
      × (p.low_water ≡ low)
      × (p.retry_after ≡ retry)
      × (p.shedding ≡ false)
unfolding new
new-marks high low retry p h = ground arith

run-append :
    (p : HighWaterPolicy) (depths : List ℕ) (depth : ℕ)
    → run p (depths ++ depth ∷ []) ≡ (on_enqueue (run p depths) depth).1
unfolding run
run-append p [] depth = refl
run-append p (d ∷ rest) depth = run-append (on_enqueue p d).1 rest depth

on_enqueue-shedding :
    (p : HighWaterPolicy) (depth : ℕ)
    → (on_enqueue p depth).0
      ≡ (if (on_enqueue p depth).1.shedding then reject queue_full p.retry_after else admit)
unfolding on_enqueue
on_enqueue-shedding p depth = refl

-- For a policy that `new` accepts, the call at `depth` after any history rejects, with
-- `queue_full` and the configured retry time whatever the depth, exactly if the last depth outside
-- the band, the new one included, was at the high mark or above; otherwise it admits, also if there
-- is none. The low mark itself is outside the band, on the admitting side.
pub on_enqueue-run :
    (high low retry : ℕ) (p : HighWaterPolicy) (depths : List ℕ) (depth : ℕ)
    → new high low retry ≡ some p
    → (on_enqueue (run p depths) depth).0 ≡ (
        if get_or (last_crossing high low (depths ++ depth ∷ [])) false
        then reject queue_full retry
        else admit)
on_enqueue-run high low retry p depths depth h = ground (
  arith,
  new-marks high low retry p,
  run-marks p depths,
  run-append p depths depth,
  on_enqueue-shedding (run p depths) depth,
  shedding-run p (depths ++ depth ∷ []),
)
