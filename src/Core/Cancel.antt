-- ===== src/Core/Cancel.antt =====
-- crates/riftgate-core/src/cancel.rs: the cause of a cancellation, and the state that its handles share.
mod Tests
pub mod Trips
use riftgate.Base.{ℕ, ◌-◌, Bool, true, false, ◌&&◌, not, ltb, ◌==◌, if◌then◌else◌, Text, codes}

pub data CancelCause : Type 0 where
  not_cancelled dropped_by_client deadline_exceeded upstream_failed hedge_lost filter_terminated
        draining other_cause :
      CancelCause

pub as_str : CancelCause → Text
as_str not_cancelled = codes "not_cancelled"
as_str dropped_by_client = codes "dropped_by_client"
as_str deadline_exceeded = codes "deadline_exceeded"
as_str upstream_failed = codes "upstream_failed"
as_str hedge_lost = codes "hedge_lost"
as_str filter_terminated = codes "filter_terminated"
as_str draining = codes "draining"
as_str other_cause = codes "other"

-- The numbers of the enumeration.
pub as_u8 : CancelCause → ℕ
as_u8 not_cancelled = 0
as_u8 dropped_by_client = 1
as_u8 deadline_exceeded = 2
as_u8 upstream_failed = 3
as_u8 hedge_lost = 4
as_u8 filter_terminated = 5
as_u8 draining = 6
as_u8 other_cause = 7

pub from_u8 : ℕ → CancelCause
from_u8 b =
    if b == 1
    then dropped_by_client
    else if b == 2
    then deadline_exceeded
    else if b == 3
    then upstream_failed
    else if b == 4
    then hedge_lost
    else if b == 5
    then filter_terminated
    else if b == 6
    then draining
    else if b == 7
    then other_cause
    else not_cancelled

-- The token of the crate tokio-util is whether it was cancelled.
pub record CancelState : Type 0 where
  pub token : Bool
  pub cause : ℕ

abbrev pub new_state : CancelState
new_state = record { token = false; cause = 0 }

-- The two atomic steps of `trip`.
pub exchange : CancelState → CancelCause → CancelState
unfolding as_u8
exchange s cause = if s.cause == as_u8 not_cancelled then record s { cause = as_u8 cause } else s

pub cancel_token : CancelState → CancelState
cancel_token s = record s { token = true }

pub trip : CancelState → CancelCause → CancelState
unfolding exchange cancel_token
trip s cause = cancel_token (exchange s cause)

pub observed_cause : CancelState → CancelCause
unfolding from_u8
observed_cause s = from_u8 s.cause

pub record Cancellation : Type 0 where
  pub state : CancelState
  pub drop_cause : CancelCause

abbrev pub new : Cancellation
new = record { state = new_state; drop_cause = dropped_by_client }

abbrev pub with_drop_cause : Cancellation → CancelCause → Cancellation
with_drop_cause c cause = record c { drop_cause = cause }

pub cancel : Cancellation → CancelCause → Cancellation
unfolding trip
cancel c cause = record c { state = trip c.state cause }

-- `drop`, with the number of handles that share the state; what the drivers see of it.
pub dropped : ℕ → Cancellation → CancelState
unfolding trip
dropped strong_count c =
    if ltb 1 strong_count && not c.state.token then trip c.state c.drop_cause else c.state
