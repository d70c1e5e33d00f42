-- ===== src/Core/Backpressure.antt =====
-- crates/riftgate-core/src/backpressure.rs: the admission policy with two watermarks.
pub mod Hysteresis
mod Tests
use riftgate.Base.{
  ℕ, ◌≤◌, ◌<◌, Bool, true, false, not, ◌&&◌, Option, none, some, List, [], ◌∷◌, ltb, leb,
  if◌then◌else◌,
}

pub data DenialReason : Type 0 where
  rate_limit queue_full circuit_open : DenialReason

-- A duration is its number of nanoseconds.
pub data AdmissionDecision : Type 0 where
  admit : AdmissionDecision
  reject : DenialReason → ℕ → AdmissionDecision

pub record HighWaterPolicy : Type 0 where
  pub high_water : ℕ
  pub low_water : ℕ
  pub retry_after : ℕ
  pub shedding : Bool

-- `none` is a failed assertion.
pub new : ℕ → ℕ → ℕ → Option HighWaterPolicy
new high_water low_water retry_after =
    if ltb 0 high_water && ltb 0 low_water && ltb low_water high_water
    then some (record {
      high_water = high_water;
      low_water = low_water;
      retry_after = retry_after;
      shedding = false;
    })
    else none

pub is_shedding : HighWaterPolicy → Bool
is_shedding p = p.shedding

-- The decision, and the policy after the call.
pub on_enqueue : HighWaterPolicy → ℕ → AdmissionDecision × HighWaterPolicy
on_enqueue p depth =
    let new_shedding : Bool =
      if p.shedding then ltb p.low_water depth else leb p.high_water depth in
    let decision : AdmissionDecision =
      if new_shedding then reject queue_full p.retry_after else admit in
    (decision, record p { shedding = new_shedding })

-- The depths of a run of calls, oldest first.
pub run : HighWaterPolicy → List ℕ → HighWaterPolicy
unfolding on_enqueue
run p [] = p
run p (depth ∷ rest) = run (on_enqueue p depth).1 rest
