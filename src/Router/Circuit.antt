-- ===== src/Router/Circuit.antt =====
-- crates/riftgate-router/src/circuit.rs: a circuit breaker for each backend, over an inner router.
mod Tests
pub mod Machine
pub mod Outcomes
pub mod Waiting
pub mod History
pub mod Signals
pub mod Gate
pub mod Probes
use riftgate.Base.{
  ℕ, ◌+◌, ◌-◌, ◌*◌, ◌/◌, ◌%◌, ◌^◌, Bool, true, false, not, ◌&&◌, ◌||◌, Option, none, some, List, [],
  ◌∷◌, ltb, leb, ◌==◌, if◌then◌else◌, Map, put, ℕ_discrete, max, set, suc, replicate,
}
use riftgate.Core.Request.{Request, StatusCode}
use riftgate.Core.Router.{
  Router, BackendId, BackendPool, BackendSignal, BackendSignals, CircuitState, closed, opened,
  half_open, RoutingDecision, send, hedge, reject, Outcome, default_signal, get_signal,
}

pub record CircuitBreakerConfig : Type 0 where
  pub failure_threshold : ℕ
  -- nanoseconds
  pub reset_timeout : ℕ
  pub half_open_max : ℕ

abbrev pub default_config : CircuitBreakerConfig
default_config = record { failure_threshold = 5; reset_timeout = 30000000000; half_open_max = 1 }

abbrev pub u32_mod : ℕ
u32_mod = 2 ^ 32

abbrev pub u64_mod : ℕ
u64_mod = 2 ^ 64

-- `(tag << 32) | failures`.
pub pack_state : ℕ → ℕ → ℕ
pack_state tag failures = tag * u32_mod + failures

pub unpack_state : ℕ → ℕ × ℕ
unpack_state s = (s / u32_mod % u32_mod, s % u32_mod)

abbrev pub tag_closed : ℕ
tag_closed = 0

abbrev pub tag_open : ℕ
tag_open = 1

abbrev pub tag_half_open : ℕ
tag_half_open = 2

pub record BackendBreaker : Type 0 where
  pub state : ℕ
  pub half_open_inflight : ℕ

pub new_breaker : BackendBreaker
new_breaker = record { state = pack_state tag_closed 0; half_open_inflight = 0 }

pub tag_to_state : ℕ → CircuitState
tag_to_state tag =
    if tag == tag_open then opened else if tag == tag_half_open then half_open else closed

-- The arbiter's own state; the inner router's stands beside it. Instants are nanoseconds.
pub record Breakers : Type 0 where
  pub breakers : Map BackendId BackendBreaker
  pub transitioned_at : Map BackendId ℕ

pub new : Breakers
new = record { breakers = λ b. none; transitioned_at = λ b. none }

pub state_of : Breakers → BackendId → CircuitState
unfolding tag_to_state
state_of s backend = elim (s.breakers backend) [
  | none ↦ closed
  | some b ↦ tag_to_state (unpack_state b.state).0
]

abbrev pub or_new : Option BackendBreaker → BackendBreaker
or_new none = new_breaker
or_new (some b) = b

-- `entry(backend).or_insert_with(BackendBreaker::new)`.
pub ensure_backend : Breakers → BackendId → Breakers
unfolding new_breaker
ensure_backend s backend = record s {
  breakers = put ℕ_discrete s.breakers backend (or_new (s.breakers backend));
}

abbrev pub put_breaker : Breakers → BackendId → BackendBreaker → Breakers
put_breaker s backend b = record s { breakers = put ℕ_discrete s.breakers backend b }

abbrev pub put_instant : Breakers → BackendId → ℕ → Breakers
put_instant s backend t = record s { transitioned_at = put ℕ_discrete s.transitioned_at backend t }

-- The innermost block: the breaker `b` is open since `t`; an instant before `t` counts as `t`.
pub probe_after : CircuitBreakerConfig → ℕ → BackendId → Breakers → ℕ → Breakers
probe_after cfg now backend s t =
    if leb cfg.reset_timeout (now - t)
    then put_instant
        (put_breaker s backend
          (record { state = pack_state tag_half_open 0; half_open_inflight = 0 }))
        backend now
    else s

pub maybe_transition_open_to_halfopen : CircuitBreakerConfig → ℕ → Breakers → BackendId → Breakers
unfolding probe_after
maybe_transition_open_to_halfopen cfg now s backend = elim (s.breakers backend) [
  | none ↦ s
  | some b ↦
      if (unpack_state b.state).0 == tag_open
      then elim (s.transitioned_at backend) [ none ↦ s | some t ↦ probe_after cfg now backend s t ]
      else s
]

-- The loop at the head of `route`: `clock i` is the reading for the pool's entry `i`.
pub prepare : CircuitBreakerConfig → (ℕ → ℕ) → ℕ → List BackendId → Breakers → Breakers
prepare cfg clock i [] s = s
prepare cfg clock i (b ∷ rest) s =
    prepare cfg clock (i + 1) rest
      (maybe_transition_open_to_halfopen cfg (clock i) (ensure_backend s b) b)

pub max_id : List BackendId → ℕ
max_id [] = 0
max_id (b ∷ rest) = max b (max_id rest)

-- What a breaker shows to the inner router: a half-open one whose probe budget is used up looks
-- open.
pub presented : CircuitBreakerConfig → BackendBreaker → CircuitState
unfolding tag_to_state
presented cfg b =
    let tag = (unpack_state b.state).0 in
    if tag == tag_half_open && leb cfg.half_open_max b.half_open_inflight
    then opened
    else tag_to_state tag

pub copy_signals : BackendSignals → List BackendId → List BackendSignal → List BackendSignal
unfolding get_signal
copy_signals signals [] out = out
copy_signals signals (b ∷ rest) out = copy_signals signals rest (set out b (get_signal signals b))

-- `out[b].circuit_state = …` for a breaker that exists.
pub write_state : List BackendSignal → BackendId → CircuitState → List BackendSignal
unfolding get_signal
write_state out b st =
    set out b (record (get_signal (record { signals = out }) b) { circuit_state = st })

-- For a backend with no breaker the copied signal stays.
pub write_breaker :
    CircuitBreakerConfig
    → Option BackendBreaker
    → BackendId
    → List BackendSignal
    → List BackendSignal
unfolding presented write_state
write_breaker cfg none b out = out
write_breaker cfg (some br) b out = write_state out b (presented cfg br)

pub overlay :
    CircuitBreakerConfig → Breakers → List BackendId → List BackendSignal → List BackendSignal
unfolding write_breaker
overlay cfg s [] out = out
overlay cfg s (b ∷ rest) out = overlay cfg s rest (write_breaker cfg (s.breakers b) b out)

pub build_signals : CircuitBreakerConfig → Breakers → BackendPool → BackendSignals → BackendSignals
unfolding copy_signals overlay max_id
build_signals cfg s pool signals = record {
  signals =
      overlay cfg s pool.backends (
        copy_signals signals pool.backends (replicate (suc (max_id pool.backends)) default_signal));
}

pub counts_as_failure : StatusCode → Bool
counts_as_failure s = if leb 500 s then true else s == 408 || s == 429

unfoldable pub is_failure : Outcome → Bool
unfolding counts_as_failure
is_failure outcome =
    not outcome.ok || elim outcome.status [ none ↦ false | some s ↦ counts_as_failure s ]

-- The match on the tag and the outcome, for the breaker `b` of `backend`.
pub settle : CircuitBreakerConfig → ℕ → Breakers → BackendId → BackendBreaker → Bool → Breakers
settle cfg now s backend b failed =
    let (tag, failures) = unpack_state b.state in
    let next = (failures + 1) % u32_mod in
    if tag == tag_closed && failed
    then if leb cfg.failure_threshold next
      then put_instant (put_breaker s backend (record b { state = pack_state tag_open 0 })) backend
          now
      else put_breaker s backend (record b { state = pack_state tag_closed next })
    else if tag == tag_closed && ltb 0 failures
    then put_breaker s backend (record b { state = pack_state tag_closed 0 })
    else if tag == tag_half_open && failed
    then put_instant
        (put_breaker s backend (record { state = pack_state tag_open 0; half_open_inflight = 0 }))
        backend now
    else if tag == tag_half_open
    then put_breaker s backend (record { state = pack_state tag_closed 0; half_open_inflight = 0 })
    else s

pub record_outcome : CircuitBreakerConfig → ℕ → Breakers → Outcome → Breakers
record_outcome cfg now s outcome =
    let s' = ensure_backend s outcome.backend in
    elim (s'.breakers outcome.backend) [
      | none ↦ s'
      | some b ↦ settle cfg now s' outcome.backend b (is_failure outcome)
    ]

-- A `Send` to a half-open backend takes one probe.
pub count_probe : Breakers → RoutingDecision → Breakers
count_probe s (send backend) = elim (s.breakers backend) [
  | none ↦ s
  | some b ↦
      if (unpack_state b.state).0 == tag_half_open
      then put_breaker s backend
          (record b { half_open_inflight = (b.half_open_inflight + 1) % u64_mod })
      else s
]
count_probe s (hedge bs) = s
count_probe s (reject status) = s

-- The clock readings of a call are part of the state that it starts from: `clock i` for the entry
-- `i` of the pool.
module _ (cfg : CircuitBreakerConfig) (inner : Router) where
  pub route :
      (ℕ → ℕ)
      → Breakers × inner.State
      → Request
      → BackendPool
      → BackendSignals
      → RoutingDecision × (Breakers × inner.State)
  route clock (s, r) req pool signals =
      let s' = prepare cfg clock 0 pool.backends s in
      let (decision, r') = inner.route r req pool (build_signals cfg s' pool signals) in
      (decision, (count_probe s' decision, r'))

  pub on_response : ℕ → Breakers × inner.State → RoutingDecision → Outcome → Breakers × inner.State
  on_response now (s, r) decision outcome =
      (record_outcome cfg now s outcome, inner.on_response r decision outcome)
