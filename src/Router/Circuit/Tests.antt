-- ===== src/Router/Circuit/Tests.antt =====
-- Runs of the circuit breakers, over the weighted router.
use riftgate.Base.{
  ℕ, ◌+◌, ◌≡◌, refl, Option, some, [], ◌∷◌, Bool, true, false, arith, subst, sym, ◌≢◌,
}
use riftgate.Core.Request.{Request, get, empty, service_unavailable}
use riftgate.Core.Router.{
  BackendId, BackendPool, BackendSignals, Outcome, get_signal, contains, targets, F32, CircuitState,
  closed, opened, half_open, Router, RoutingDecision, send, reject, AvoidsOpen,
}
use riftgate.Router.Weighted.{WeightedRandomRouter, weighted}
use riftgate.Router.Weighted.Choice.{weighted-AvoidsOpen}
use riftgate.Router.Circuit.{
  CircuitBreakerConfig, BackendBreaker, Breakers, unpack_state, new, record_outcome, route,
  build_signals, prepare, is_failure,
}
use riftgate.Router.Circuit.Machine.{open_since, probing, phase, IsBreaker, IsValid, after_outcome}
use riftgate.Router.Circuit.Outcomes.{record_outcome-phase}
use riftgate.Router.Circuit.Waiting.{wait_all, prepare-phase}
use riftgate.Router.Circuit.History.{
  record_all, events_of, has_streak, is_open, record_all-has_streak,
}
use riftgate.Router.Circuit.Gate.{route-open}
use riftgate.Router.Circuit.Probes.{HasBudget, route-HasBudget, route-exhausted}

abbrev two_failures : CircuitBreakerConfig
two_failures = record { failure_threshold = 2; reset_timeout = 1000; half_open_max = 1 }

abbrev failure : Outcome
failure = record { backend = 7; status = some 503; duration = 20; ok = false }

abbrev request : Request
request = record {
  id = 1;
  method = get;
  path = [];
  headers = record { entries = [] };
  body = empty;
}

abbrev two_backends : BackendPool
two_backends = record { backends = 7 ∷ 8 ∷ [] }

abbrev no_signals : BackendSignals
no_signals = record { signals = [] }

abbrev cool : F32 → Bool
cool p = false

abbrev inner_state : WeightedRandomRouter
inner_state = record {
  table = record { primary = 7; alias = 7; prob_scaled = 4294967296 } ∷ [];
  backends = 7 ∷ [];
  rng_state = 1;
}

-- Every backend has the breaker `b`, stamped at `at`.
abbrev all_of : BackendBreaker → Option ℕ → Breakers
all_of b at = record { breakers = λ backend. some b; transitioned_at = λ backend. at }

abbrev open_word : BackendBreaker
open_word = record { state = 4294967296; half_open_inflight = 0 }

abbrev probing_word : BackendBreaker
probing_word = record { state = 8589934592; half_open_inflight = 1 }

all_of-IsValid : (b : BackendBreaker) (at : Option ℕ) → IsBreaker b → IsValid (all_of b at)
all_of-IsValid b at v = record { each = λ backend c e. subst IsBreaker (cc e) v }

open_word-IsBreaker : IsBreaker open_word
unfolding unpack_state
open_word-IsBreaker = record { tag = omega arith; failures = omega arith }

probing_word-IsBreaker : IsBreaker probing_word
unfolding unpack_state
probing_word-IsBreaker = record { tag = omega arith; failures = omega arith }

phase_open : phase (all_of open_word (some 100)) 7 ≡ open_since (some 100)
unfolding unpack_state phase
phase_open = refl

phase_probing : phase (all_of probing_word (some 100)) 7 ≡ probing 1
unfolding unpack_state phase
phase_probing = refl

probing-HasBudget : HasBudget two_failures (all_of probing_word (some 100))
unfolding unpack_state phase
probing-HasBudget = record { each = λ b. omega arith }

record_all-has_streak_example :
    is_open (phase (record_all two_failures new ((1, failure) ∷ (2, failure) ∷ [])) 7)
    ≡ has_streak 2 (events_of 7 ((1, failure) ∷ (2, failure) ∷ []))
record_all-has_streak_example =
    record_all-has_streak two_failures 7 ((1, failure) ∷ (2, failure) ∷ []) (omega arith)
      (omega arith)

record_outcome-phase_example :
    (phase (record_outcome two_failures 300 (all_of probing_word (some 100)) failure) 7
      ≡ after_outcome two_failures 300
          (is_failure failure)
          (phase (all_of probing_word (some 100)) 7))
    × IsValid (record_outcome two_failures 300 (all_of probing_word (some 100)) failure)
record_outcome-phase_example =
    record_outcome-phase two_failures 300 (all_of probing_word (some 100)) failure 7 (omega arith)
      (all_of-IsValid probing_word (some 100) probing_word-IsBreaker)

prepare-phase_example :
    (phase (prepare two_failures (λ i. 1200 + i) 0 (7 ∷ 8 ∷ []) (all_of open_word (some 100))) 7
      ≡ wait_all two_failures
          (λ i. 1200 + i)
          0
          (7 ∷ 8 ∷ [])
          7
          (phase (all_of open_word (some 100)) 7))
    × IsValid (prepare two_failures (λ i. 1200 + i) 0 (7 ∷ 8 ∷ []) (all_of open_word (some 100)))
prepare-phase_example =
    prepare-phase two_failures (λ i. 1200 + i) 0 (7 ∷ 8 ∷ []) (all_of open_word (some 100)) 7
      (all_of-IsValid open_word (some 100) open_word-IsBreaker)

route-open_example :
    contains
      (targets
        (route two_failures
          (weighted cool)
          (λ k. 500)
          (all_of open_word (some 100), inner_state)
          request
          two_backends
          no_signals).0)
      7
    ≡ false
route-open_example =
    route-open two_failures (weighted cool) (weighted-AvoidsOpen cool) (λ k. 500)
      (all_of open_word (some 100)) inner_state request two_backends no_signals 7 100
      (all_of-IsValid open_word (some 100) open_word-IsBreaker) refl phase_open (λ k. omega arith)

route-exhausted_example :
    (contains
        (targets
          (route two_failures
            (weighted cool)
            (λ k. 500)
            (all_of probing_word (some 100), inner_state)
            request
            two_backends
            no_signals).0)
        7
      ≡ false)
    × (phase
          (route two_failures
            (weighted cool)
            (λ k. 500)
            (all_of probing_word (some 100), inner_state)
            request
            two_backends
            no_signals).1.0
          7
        ≡ probing 1)
route-exhausted_example =
    route-exhausted two_failures (weighted cool) (weighted-AvoidsOpen cool) (λ k. 500)
      (all_of probing_word (some 100)) inner_state request two_backends no_signals 7 1
      (all_of-IsValid probing_word (some 100) probing_word-IsBreaker) refl phase_probing
      (omega arith)

abbrev seven_unless_open : CircuitState → RoutingDecision
seven_unless_open opened = reject service_unavailable
seven_unless_open closed = send 7
seven_unless_open half_open = send 7

abbrev to_seven : Router
to_seven = record {
  State = Unit {0};
  route = λ s req pool signals. (seven_unless_open (get_signal signals 7).circuit_state, s);
  on_response = λ s decision outcome. s;
}

seven_unless_open-AvoidsOpen :
    (c : CircuitState) (b : BackendId)
    → contains (targets (seven_unless_open c)) b ≡ true
    → (b ≡ 7) × (c ≢ opened)
seven_unless_open-AvoidsOpen opened b e = cc
seven_unless_open-AvoidsOpen closed b e = (ground arith, λ o. cc)
seven_unless_open-AvoidsOpen half_open b e = (ground arith, λ o. cc)

to_seven-AvoidsOpen : AvoidsOpen to_seven
to_seven-AvoidsOpen s req pool signals b e =
    let (same, shut) = seven_unless_open-AvoidsOpen (get_signal signals 7).circuit_state b e in
    subst (λ c. (get_signal signals c).circuit_state ≢ opened) (sym same) shut

route-seven :
    (b : BackendId)
    → contains
        (targets
          (route two_failures to_seven
            (λ k. 1200)
            (all_of open_word (some 100), tt)
            request
            two_backends
            no_signals).0)
        b
      ≡ true
    → contains two_backends.backends b ≡ true
unfolding route
route-seven b e =
    let s =
      prepare two_failures (λ k. 1200) 0 two_backends.backends (all_of open_word (some 100)) in
    let state =
      (get_signal (build_signals two_failures s two_backends no_signals) 7).circuit_state in
    let same = (seven_unless_open-AvoidsOpen state b e).0 in
    subst (λ c. contains (7 ∷ 8 ∷ []) c ≡ true) (sym same) refl

open-HasBudget : HasBudget two_failures (all_of open_word (some 100))
unfolding unpack_state phase
open-HasBudget = record { each = λ b. tt }

route-HasBudget_example :
    HasBudget two_failures
      (route two_failures to_seven
        (λ k. 1200)
        (all_of open_word (some 100), tt)
        request
        two_backends
        no_signals).1.0
route-HasBudget_example =
    route-HasBudget two_failures to_seven to_seven-AvoidsOpen (λ k. 1200)
      (all_of open_word (some 100)) tt request two_backends no_signals
      (all_of-IsValid open_word (some 100) open_word-IsBreaker) route-seven open-HasBudget
