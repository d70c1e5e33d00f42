-- ===== src/Core/Cancel/Trips.antt =====
-- Threads that trip one state at the same time.
use riftgate.Base.{
  ℕ, ◌+◌, ◌<◌, ◌≡◌, ◌≢◌, refl, sym, ◌∙◌, ap, Bool, true, false, List, [], ◌∷◌, ◌++◌, ◌==◌, arith,
}
use riftgate.Core.Cancel.{
  CancelCause, not_cancelled, dropped_by_client, deadline_exceeded, upstream_failed, hedge_lost,
  filter_terminated, draining, other_cause, as_u8, from_u8, CancelState, new_state, exchange,
  cancel_token, observed_cause,
}

from_u8-as_u8 : (c : CancelCause) → from_u8 (as_u8 c) ≡ c
unfolding from_u8 as_u8
from_u8-as_u8 not_cancelled = refl
from_u8-as_u8 dropped_by_client = refl
from_u8-as_u8 deadline_exceeded = refl
from_u8-as_u8 upstream_failed = refl
from_u8-as_u8 hedge_lost = refl
from_u8-as_u8 filter_terminated = refl
from_u8-as_u8 draining = refl
from_u8-as_u8 other_cause = refl

-- The state, how many threads are between their two steps, and the causes in the order of the first.
pub record World : Type 0 where
  pub state : CancelState
  pub between : ℕ
  pub tried : List CancelCause

abbrev pub start_world : World
start_world = record { state = new_state; between = 0; tried = [] }

-- A thread exchanges the cause, and later cancels the token; nobody cancels for no cause.
pub data Step : World → World → Type 0 where
  exchanging :
      (w : World) (c : CancelCause)
      → c ≢ not_cancelled
      → Step w (record {
        state = exchange w.state c;
        between = w.between + 1;
        tried = w.tried ++ c ∷ [];
      })
  cancelling :
      (w : World) (n : ℕ)
      → w.between ≡ n + 1
      → Step w (record w { state = cancel_token w.state; between = n })

pub data Reach : World → Type 0 where
  start : Reach start_world
  next : {v w : World} → Reach v → Step v w → Reach w

abbrev pub first_cause : List CancelCause → CancelCause
first_cause [] = not_cancelled
first_cause (c ∷ cs) = c

-- Every cause that was tried is one.
abbrev AllReal : List CancelCause → Type 0
AllReal [] = Unit
AllReal (c ∷ cs) = (c ≢ not_cancelled) × AllReal cs

abbrev is_nil : List CancelCause → Bool
is_nil [] = true
is_nil (c ∷ cs) = false

record IsRecorded (w : World) : Type 0 where
  recorded : w.state.cause ≡ as_u8 (first_cause w.tried)
  real : AllReal w.tried
  started : 0 < w.between → is_nil w.tried ≡ false
  cancelled : w.state.token ≡ true → is_nil w.tried ≡ false

start-IsRecorded : IsRecorded start_world
unfolding as_u8
start-IsRecorded = record {
  recorded = refl;
  real = tt;
  started = λ h. absurd (omega (arith, h));
  cancelled = λ e. cc e;
}

AllReal-append :
    (cs : List CancelCause) (c : CancelCause)
    → AllReal cs
    → c ≢ not_cancelled
    → AllReal (cs ++ c ∷ [])
AllReal-append [] c v h = (h, tt)
AllReal-append (d ∷ cs) c (g, v) h = (g, AllReal-append cs c v h)

is_nil-append : (cs : List CancelCause) (c : CancelCause) → is_nil (cs ++ c ∷ []) ≡ false
is_nil-append [] c = refl
is_nil-append (d ∷ cs) c = refl

-- Only the number of no cause is 0.
as_u8-real : (c : CancelCause) → c ≢ not_cancelled → (as_u8 c == 0) ≡ false
unfolding as_u8
as_u8-real not_cancelled h = absurd (h refl)
as_u8-real dropped_by_client h = refl
as_u8-real deadline_exceeded h = refl
as_u8-real upstream_failed h = refl
as_u8-real hedge_lost h = refl
as_u8-real filter_terminated h = refl
as_u8-real draining h = refl
as_u8-real other_cause h = refl

exchange-first :
    (s : CancelState) (cs : List CancelCause) (c : CancelCause)
    → AllReal cs
    → s.cause ≡ as_u8 (first_cause cs)
    → (exchange s c).cause ≡ as_u8 (first_cause (cs ++ c ∷ []))
unfolding exchange as_u8
exchange-first s [] c v e = rw e refl
exchange-first s (d ∷ cs) c (real, v) e = rw (e, as_u8-real d real) refl

exchange-token : (s : CancelState) (c : CancelCause) → (exchange s c).token ≡ s.token
unfolding exchange
exchange-token s c = ground arith

Step-IsRecorded : {v w : World} → Step v w → IsRecorded v → IsRecorded w
unfolding cancel_token
Step-IsRecorded (exchanging w c h) v = record {
  recorded = exchange-first w.state w.tried c v.real v.recorded;
  real = AllReal-append w.tried c v.real h;
  started = λ g. is_nil-append w.tried c;
  cancelled = λ e. is_nil-append w.tried c;
}
Step-IsRecorded (cancelling w n e) v = record {
  recorded = v.recorded;
  real = v.real;
  started = λ g. v.started (omega (arith, e));
  cancelled = λ g. v.started (omega (arith, e));
}

Reach-IsRecorded : {w : World} → Reach w → IsRecorded w
Reach-IsRecorded start = start-IsRecorded
Reach-IsRecorded (next r step) = Step-IsRecorded step (Reach-IsRecorded r)

first_cause-real :
    (cs : List CancelCause) → AllReal cs → is_nil cs ≡ false → first_cause cs ≢ not_cancelled
first_cause-real [] v h = cc h
first_cause-real (c ∷ cs) (real, v) h = real

-- However the two steps of any threads interleave that trip one state, each for a cause: the cause
-- that is seen is the one of the first exchange, for ever, and whoever sees the token cancelled sees
-- a cause.
pub Reach-first_cause :
    {w : World}
    → Reach w
    → (observed_cause w.state ≡ first_cause w.tried)
      × (w.state.token ≡ true → observed_cause w.state ≢ not_cancelled)
unfolding observed_cause
Reach-first_cause {w} r =
    let v = Reach-IsRecorded r in
    let seen : from_u8 w.state.cause ≡ first_cause w.tried =
      ap from_u8 v.recorded ∙ from_u8-as_u8 (first_cause w.tried) in
    (seen, λ e same. first_cause-real w.tried v.real (v.cancelled e) (sym seen ∙ same))
