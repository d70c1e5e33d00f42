-- ===== src/Router/Circuit/Gate.antt =====
-- What the arbiter lets through, over an inner router that heeds the signals.
use riftgate.Base.{
  ℕ, ◌-◌, ◌<◌, ◌≤◌, ◌≡◌, true, false, Option, none, some, arith, ap, ◌∙◌, Bool-cases, inl, inr,
}
use riftgate.Core.Request.{Request}
use riftgate.Core.Router.{
  Router, BackendId, BackendPool, BackendSignal, BackendSignals, opened, get_signal, contains,
  targets, AvoidsOpen,
}
use riftgate.Router.Circuit.{
  CircuitBreakerConfig, BackendBreaker, Breakers, presented, build_signals, prepare, route,
}
use riftgate.Router.Circuit.Machine.{Phase, counting, open_since, probing, phase, look, IsValid}
use riftgate.Router.Circuit.Waiting.{wait_all, wait_all-open, prepare-phase}
use riftgate.Router.Circuit.Signals.{shown, get_signal-build_signals}

-- A machine that must not be sent to: open, or half-open with its probe budget used up.
abbrev pub IsShut : CircuitBreakerConfig → Phase → Type 0
IsShut cfg (counting n) = ⊥
IsShut cfg (open_since at) = Unit
IsShut cfg (probing n) = cfg.half_open_max ≤ n

shown-IsShut :
    (cfg : CircuitBreakerConfig) (o : Option BackendBreaker) (at : Option ℕ) (x : BackendSignal)
    (p : Phase)
    → look o at ≡ p
    → IsShut cfg p
    → (shown cfg o x).circuit_state ≡ opened
unfolding look presented
shown-IsShut cfg none at x (counting n) e h = elim h [ ]
shown-IsShut cfg none at x (open_since t) e h = cc
shown-IsShut cfg none at x (probing n) e h = cc
shown-IsShut cfg (some br) at x (counting n) e h = elim h [ ]
shown-IsShut cfg (some br) at x (open_since t) e h = ground arith
shown-IsShut cfg (some br) at x (probing n) e h = ground arith

module _ (cfg : CircuitBreakerConfig) (inner : Router) (heeds : AvoidsOpen inner) where
  pub not-contains-targets :
      (s : Breakers) (r : inner.State) (req : Request) (pool : BackendPool)
      (signals : BackendSignals) (b : BackendId) (p : Phase)
      → contains pool.backends b ≡ true
      → phase s b ≡ p
      → IsShut cfg p
      → contains (targets (inner.route r req pool (build_signals cfg s pool signals)).0) b ≡ false
  unfolding phase
  not-contains-targets s r req pool signals b p member e shut =
      elim (Bool-cases
        (contains (targets (inner.route r req pool (build_signals cfg s pool signals)).0) b)) [
          | inl named ↦ absurd (
              heeds r req pool (build_signals cfg s pool signals) b named (
                ap (λ (x : BackendSignal). x.circuit_state)
                  (get_signal-build_signals cfg s pool signals b member)
                ∙ shown-IsShut cfg (s.breakers b) (s.transitioned_at b) (get_signal signals b) p e
                    shut))
          | inr absent ↦ absent
        ]

  -- Over an inner router that heeds the signals, which means that it names no backend
  -- whose circuit they show as open (the weighted router does, and the cache-aware and the
  -- hedging router over one that does; round robin and the constant router do not), and for valid breakers: a backend of the pool
  -- whose breaker opened at `t` is named by no decision while every clock reading of the call is
  -- less than the reset timeout after `t`.
  pub route-open :
      (clock : ℕ → ℕ) (s : Breakers) (r : inner.State) (req : Request) (pool : BackendPool)
      (signals : BackendSignals) (b : BackendId) (t : ℕ)
      → IsValid s
      → contains pool.backends b ≡ true
      → phase s b ≡ open_since (some t)
      → ((k : ℕ) → clock k - t < cfg.reset_timeout)
      → contains (targets (route cfg inner clock (s, r) req pool signals).0) b ≡ false
  unfolding route
  route-open clock s r req pool signals b t v member e early =
      let (p, w) = prepare-phase cfg clock 0 pool.backends s b v in
      not-contains-targets (prepare cfg clock 0 pool.backends s) r req pool signals b
        (open_since (some t)) member
        (p
          ∙ ap (wait_all cfg clock 0 pool.backends b) e
          ∙ wait_all-open cfg clock 0 pool.backends b t early)
        tt
