-- ===== src/Router/Circuit/History.antt =====
-- When a history of outcomes opens a breaker.
use riftgate.Base.{
  ℕ, suc, ◌+◌, ◌<◌, ◌≡◌, refl, Bool, true, false, ◌||◌, Option, some, List, [], ◌∷◌, leb, ◌==◌,
  if◌then◌else◌, arith, ap, ◌∙◌,
}
use riftgate.Core.Router.{BackendId, Outcome}
use riftgate.Router.Circuit.{
  CircuitBreakerConfig, Breakers, u32_mod, new, is_failure, record_outcome,
}
use riftgate.Router.Circuit.Machine.{
  Phase, counting, open_since, probing, phase, look, after_outcome, IsValid,
}
use riftgate.Router.Circuit.Outcomes.{record_outcome-phase}

-- Outcomes of any backends, oldest first, each with the instant of its recording.
unfoldable pub record_all : CircuitBreakerConfig → Breakers → List (ℕ × Outcome) → Breakers
record_all cfg s [] = s
record_all cfg s ((now, outcome) ∷ rest) = record_all cfg (record_outcome cfg now s outcome) rest

-- The outcomes of one backend: their instants, and which of them are failures.
unfoldable pub events_of : BackendId → List (ℕ × Outcome) → List (ℕ × Bool)
events_of b [] = []
events_of b ((now, outcome) ∷ rest) =
    let others = events_of b rest in
    if outcome.backend == b then (now, is_failure outcome) ∷ others else others

-- The failures at the head of a history.
abbrev pub leading : List (ℕ × Bool) → ℕ
leading [] = 0
leading ((now, true) ∷ rest) = suc (leading rest)
leading ((now, false) ∷ rest) = 0

-- Somewhere in a history there are `n` failures in a row.
abbrev pub has_streak : ℕ → List (ℕ × Bool) → Bool
has_streak n [] = leb n 0
has_streak n ((now, f) ∷ rest) = leb n (leading ((now, f) ∷ rest)) || has_streak n rest

abbrev pub is_open : Phase → Bool
is_open (open_since at) = true
is_open (counting n) = false
is_open (probing n) = false

-- The machine of one backend over its events.
machine : CircuitBreakerConfig → List (ℕ × Bool) → Phase → Phase
machine cfg [] p = p
machine cfg ((now, failed) ∷ rest) p = machine cfg rest (after_outcome cfg now failed p)

record_all-machine :
    (cfg : CircuitBreakerConfig) (s : Breakers) (b : BackendId) (history : List (ℕ × Outcome))
    → cfg.failure_threshold < u32_mod
    → IsValid s
    → phase (record_all cfg s history) b ≡ machine cfg (events_of b history) (phase s b)
unfolding record_all events_of machine
record_all-machine cfg s b [] small v = refl
record_all-machine cfg s b ((now, outcome) ∷ rest) small v =
    let (p, w) = record_outcome-phase cfg now s outcome b small v in
    ground (arith, p, record_all-machine cfg (record_outcome cfg now s outcome) b rest small w)

machine-open_since :
    (cfg : CircuitBreakerConfig) (events : List (ℕ × Bool)) (at : Option ℕ)
    → machine cfg events (open_since at) ≡ open_since at
unfolding machine after_outcome
machine-open_since cfg [] at = refl
machine-open_since cfg ((now, failed) ∷ rest) at = machine-open_since cfg rest at

leading-has_streak :
    (n : ℕ) (events : List (ℕ × Bool))
    → 0 < n
    → (leb n (leading events) || has_streak n events) ≡ has_streak n events
leading-has_streak n [] h = ground arith
leading-has_streak n ((now, f) ∷ rest) h = ground arith

machine-counting :
    (cfg : CircuitBreakerConfig) (events : List (ℕ × Bool)) (n : ℕ)
    → n < cfg.failure_threshold
    → is_open (machine cfg events (counting n))
      ≡ (leb cfg.failure_threshold (n + leading events) || has_streak cfg.failure_threshold events)
unfolding machine after_outcome
machine-counting cfg [] n h = ground arith
machine-counting cfg ((now, false) ∷ rest) n h =
    ground (arith, machine-counting cfg rest 0, leading-has_streak cfg.failure_threshold rest)
machine-counting cfg ((now, true) ∷ rest) n h =
    ground (arith, machine-counting cfg rest (n + 1), machine-open_since cfg rest (some now))

pub new-phase : (b : BackendId) → phase new b ≡ counting 0
unfolding phase look new
new-phase b = refl

pub new-IsValid : IsValid new
unfolding new
new-IsValid = record { each = λ b c h. cc }

-- For a failure threshold above 0 and below 2^32: after a history of outcomes with no routing in
-- between, a new breaker is open exactly if its backend's outcomes hold, somewhere, as many failures
-- in a row as the threshold, however far apart in time these failures are.
pub record_all-has_streak :
    (cfg : CircuitBreakerConfig) (b : BackendId) (history : List (ℕ × Outcome))
    → 0 < cfg.failure_threshold
    → cfg.failure_threshold < u32_mod
    → is_open (phase (record_all cfg new history) b)
      ≡ has_streak cfg.failure_threshold (events_of b history)
record_all-has_streak cfg b history pos small =
    ap is_open (record_all-machine cfg new b history small new-IsValid)
    ∙ ap (λ p. is_open (machine cfg (events_of b history) p)) (new-phase b)
    ∙ machine-counting cfg (events_of b history) 0 pos
    ∙ ground (arith, leading-has_streak cfg.failure_threshold (events_of b history))
