-- ===== src/Router/Stack/Guard.antt =====
-- The guard that the breakers keep over the whole stack.
use riftgate.Base.{
  ℕ, ◌+◌, ◌<◌, ◌≤◌, ◌≡◌, refl, Bool, true, false, some, List, [], ◌∷◌, leb, ◌==◌, arith, ◌∙◌, inl,
  inr, Bool-cases,
}
use riftgate.Core.Request.{Bytes, Request}
use riftgate.Core.Router.{
  Router, F32, BackendId, BackendPool, BackendSignals, Outcome, contains, targets, AvoidsOpen,
}
use riftgate.Router.Weighted.Choice.{weighted-AvoidsOpen}
use riftgate.Router.Weighted.{weighted}
use riftgate.Router.KvAware.{KvAwareConfig, kv_aware}
use riftgate.Router.KvAware.Affinity.{kv_aware-AvoidsOpen}
use riftgate.Router.P2.{Floats}
use riftgate.Router.Hedged.{HedgedConfig}
use riftgate.Router.Hedged.Pairs.{hedged-AvoidsOpen}
use riftgate.Router.Circuit.{
  CircuitBreakerConfig, Breakers, new, u32_mod, record_outcome, is_failure, route,
}
use riftgate.Router.Circuit.Outcomes.{record_outcome-phase}
use riftgate.Router.Circuit.Machine.{
  Phase, counting, open_since, probing, phase, after_outcome, IsValid,
}
use riftgate.Router.Circuit.History.{
  record_all, events_of, has_streak, is_open, record_all-has_streak, new-phase, new-IsValid,
}
use riftgate.Router.Circuit.Gate.{route-open}
use riftgate.Router.Stack.{inner_stack}

-- The instants of a history are at or after `m`.
abbrev pub IsFrom {ℓ} : {A : Type ℓ} → ℕ → List (ℕ × A) → Type ℓ
IsFrom m [] = Unit
IsFrom m ((now, x) ∷ rest) = (m ≤ now) × IsFrom m rest

abbrev OpenedFrom : ℕ → Phase → Type 0
OpenedFrom m p = is_open p ≡ true → (t : ℕ) × (p ≡ open_since (some t)) × (m ≤ t)

after_outcome-OpenedFrom :
    (cfg : CircuitBreakerConfig) (m now : ℕ) (failed : Bool) (p : Phase)
    → m ≤ now
    → OpenedFrom m p
    → OpenedFrom m (after_outcome cfg now failed p)
unfolding after_outcome
after_outcome-OpenedFrom cfg m now true (counting n) h k e =
    elim (Bool-cases (leb cfg.failure_threshold (n + 1))) [
      | inl enough ↦ (now, rw enough refl, h)
      | inr few ↦ absurd (cc (rw few at e))
    ]
after_outcome-OpenedFrom cfg m now false (counting n) h k e = cc
after_outcome-OpenedFrom cfg m now failed (open_since at) h k e = k e
after_outcome-OpenedFrom cfg m now true (probing n) h k e = (now, refl, h)
after_outcome-OpenedFrom cfg m now false (probing n) h k e = cc

record_all-OpenedFrom :
    (cfg : CircuitBreakerConfig) (m : ℕ) (b : BackendId) (history : List (ℕ × Outcome))
    (s : Breakers)
    → cfg.failure_threshold < u32_mod
    → IsFrom m history
    → IsValid s
    → OpenedFrom m (phase s b)
    → OpenedFrom m (phase (record_all cfg s history) b) × IsValid (record_all cfg s history)
unfolding record_all
record_all-OpenedFrom cfg m b [] s small from v k = (k, v)
record_all-OpenedFrom cfg m b ((now, outcome) ∷ rest) s small (here, from) v k =
    let (p, w) = record_outcome-phase cfg now s outcome b small v in
    record_all-OpenedFrom cfg m b rest (record_outcome cfg now s outcome) small from w
      (elim (Bool-cases (outcome.backend == b)) [
        | inl same ↦
            rw (p, same)
              (after_outcome-OpenedFrom cfg m now (is_failure outcome) (phase s b) here k)
        | inr other ↦ rw (p, other) k
      ])

module _ (at_threshold : F32 → Bool) (xxh3_64 : Bytes → ℕ) (kv_cfg : KvAwareConfig) (f : Floats)
    (hedge_cfg : HedgedConfig f) (cfg : CircuitBreakerConfig) where
  abbrev stack : Router
  stack = inner_stack at_threshold xxh3_64 kv_cfg f hedge_cfg

  stack-AvoidsOpen : AvoidsOpen stack
  stack-AvoidsOpen =
      hedged-AvoidsOpen f hedge_cfg (kv_aware xxh3_64 kv_cfg (weighted at_threshold)) (
        kv_aware-AvoidsOpen xxh3_64 kv_cfg (weighted at_threshold)
          (weighted-AvoidsOpen at_threshold))

  -- For a failure threshold above 0 and below 2^32 and a reset timeout above 0, and a backend of
  -- the pool that is given: once the outcomes recorded by new breakers hold as many failures in a
  -- row of that backend as the threshold, the whole stack sends no request to it, alone or in a
  -- hedge and whatever the inner routers' states, while every clock reading of the call is less
  -- than the reset timeout after an instant `m` that none of those outcomes precedes.
  pub route-tripped :
      (clock : ℕ → ℕ) (m : ℕ) (history : List (ℕ × Outcome)) (r : stack.State) (req : Request)
      (pool : BackendPool) (signals : BackendSignals) (b : BackendId)
      → 0 < cfg.failure_threshold
      → cfg.failure_threshold < u32_mod
      → 0 < cfg.reset_timeout
      → IsFrom m history
      → has_streak cfg.failure_threshold (events_of b history) ≡ true
      → contains pool.backends b ≡ true
      → ((k : ℕ) → clock k < m + cfg.reset_timeout)
      → contains
          (targets (route cfg stack clock (record_all cfg new history, r) req pool signals).0)
          b
        ≡ false
  route-tripped clock m history r req pool signals b some_failures small some_time from streak
        member early =
      let (opened, v) =
        record_all-OpenedFrom cfg m b history new small from new-IsValid
          (rw (new-phase b) (λ e. absurd (cc e))) in
      let (t, at, after) =
        opened (record_all-has_streak cfg b history some_failures small ∙ streak) in
      route-open cfg stack stack-AvoidsOpen clock (record_all cfg new history) r req pool signals b
        t v member at (λ k. let soon = early k in omega arith)
