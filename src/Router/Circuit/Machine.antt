-- ===== src/Router/Circuit/Machine.antt =====
-- The three-state machine of each backend, and that the packed words implement it.
use riftgate.Base.{
  ℕ, ◌+◌, ◌-◌, ◌<◌, ◌≤◌, ◌≡◌, ◌≢◌, Bool, Option, none, some, leb, ◌==◌, if◌then◌else◌, arith,
}
use riftgate.Core.Router.{BackendId}
use riftgate.Router.Circuit.{
  CircuitBreakerConfig, BackendBreaker, Breakers, u32_mod, pack_state, unpack_state, tag_open,
  tag_closed, tag_half_open, settle,
}

-- What a breaker is doing: counting consecutive failures, open since an instant, or probing with
-- some probes in flight.
pub data Phase : Type 0 where
  counting : ℕ → Phase
  open_since : Option ℕ → Phase
  probing : ℕ → Phase

abbrev pub phase_of_tag : ℕ → ℕ → ℕ → Option ℕ → Phase
phase_of_tag tag failures inflight at =
    if tag == tag_open
    then open_since at
    else if tag == tag_half_open
    then probing inflight
    else counting failures

-- A backend without a breaker has no failures.
unfoldable pub look : Option BackendBreaker → Option ℕ → Phase
look none at = counting 0
look (some b) at =
    phase_of_tag (unpack_state b.state).0 (unpack_state b.state).1 b.half_open_inflight at

unfoldable pub phase : Breakers → BackendId → Phase
unfolding look
phase s backend = look (s.breakers backend) (s.transitioned_at backend)

pub unpack-pack_state :
    (tag failures : ℕ)
    → tag < u32_mod
    → failures < u32_mod
    → unpack_state (pack_state tag failures) ≡ (tag, failures)
unfolding pack_state unpack_state
unpack-pack_state tag failures h k = ground arith

-- The tag is one of the three, and one more failure can be counted.
pub record IsBreaker (b : BackendBreaker) : Type 0 where
  pub tag : (unpack_state b.state).0 ≤ 2
  pub failures : (unpack_state b.state).1 + 1 < u32_mod

pub record IsValid (s : Breakers) : Type 0 where
  pub each : (backend : BackendId) (b : BackendBreaker) → s.breakers backend ≡ some b → IsBreaker b

-- One outcome, on the machine.
unfoldable pub after_outcome : CircuitBreakerConfig → ℕ → Bool → Phase → Phase
after_outcome cfg now failed (counting n) =
    if failed
    then if leb cfg.failure_threshold (n + 1) then open_since (some now) else counting (n + 1)
    else counting 0
after_outcome cfg now failed (open_since at) = open_since at
after_outcome cfg now failed (probing n) = if failed then open_since (some now) else counting 0

abbrev waited : CircuitBreakerConfig → ℕ → Option ℕ → Phase
waited cfg now none = open_since none
waited cfg now (some t) = if leb cfg.reset_timeout (now - t) then probing 0 else open_since (some t)

-- The passing of time, on the machine.
unfoldable pub after_wait : CircuitBreakerConfig → ℕ → Phase → Phase
after_wait cfg now (open_since at) = waited cfg now at
after_wait cfg now (counting n) = counting n
after_wait cfg now (probing n) = probing n

pub settle-phase :
    (cfg : CircuitBreakerConfig) (now : ℕ) (s : Breakers) (k : BackendId) (b : BackendBreaker)
    (failed : Bool)
    → cfg.failure_threshold < u32_mod
    → IsBreaker b
    → s.breakers k ≡ some b
    → phase (settle cfg now s k b failed) k ≡ after_outcome cfg now failed (phase s k)
unfolding settle phase after_outcome
settle-phase cfg now s k b failed small v e = ground (
  arith,
  v.tag,
  v.failures,
  unpack-pack_state tag_open 0,
  unpack-pack_state tag_closed 0,
  unpack-pack_state tag_closed ((unpack_state b.state).1 + 1),
)

pub settle-phase_other :
    (cfg : CircuitBreakerConfig) (now : ℕ) (s : Breakers) (k j : BackendId) (b : BackendBreaker)
    (failed : Bool)
    → k ≢ j
    → phase (settle cfg now s k b failed) j ≡ phase s j
unfolding settle phase
settle-phase_other cfg now s k j b failed h = ground arith

pub settle-IsBreaker :
    (cfg : CircuitBreakerConfig) (now : ℕ) (s : Breakers) (k : BackendId) (b : BackendBreaker)
    (failed : Bool)
    → cfg.failure_threshold < u32_mod
    → IsBreaker b
    → s.breakers k ≡ some b
    → IsValid s
    → IsValid (settle cfg now s k b failed)
unfolding settle
settle-IsBreaker cfg now s k b failed small v e all = record {
  each = λ j c h. ground (
    arith,
    v.tag,
    v.failures,
    all.each j c,
    unpack-pack_state tag_open 0,
    unpack-pack_state tag_closed 0,
    unpack-pack_state tag_closed ((unpack_state b.state).1 + 1),
  );
}
