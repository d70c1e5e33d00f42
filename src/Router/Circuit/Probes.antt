-- ===== src/Router/Circuit/Probes.antt =====
-- The probe budget of half-open backends.
use riftgate.Base.{
  ℕ, ◌+◌, ◌%◌, ◌<◌, ◌≤◌, ◌≡◌, refl, Bool, true, false, none, some, List, [], ◌∷◌, ◌==◌,
  if◌then◌else◌, arith, ap, ◌∙◌, Bool-cases, inl, inr, dec_le,
}
use riftgate.Core.Request.{Request}
use riftgate.Core.Router.{
  Router, BackendId, BackendPool, BackendSignals, contains, targets, AvoidsOpen, RoutingDecision,
  send, hedge, reject, Outcome,
}
use riftgate.Router.Circuit.{
  CircuitBreakerConfig, Breakers, build_signals, prepare, count_probe, route, u32_mod, u64_mod,
  record_outcome, is_failure,
}
use riftgate.Router.Circuit.Machine.{
  Phase, counting, open_since, probing, phase, look, IsValid, after_wait, after_outcome,
}
use riftgate.Router.Circuit.Outcomes.{record_outcome-phase}
use riftgate.Router.Circuit.Waiting.{wait_all, prepare-phase}
use riftgate.Router.Circuit.Gate.{IsShut, not-contains-targets}

abbrev pub Within : ℕ → Phase → Type 0
Within m (counting n) = Unit
Within m (open_since at) = Unit
Within m (probing n) = n ≤ m

after_wait-Within :
    (cfg : CircuitBreakerConfig) (now m : ℕ) (p : Phase)
    → Within m p
    → Within m (after_wait cfg now p)
unfolding after_wait
after_wait-Within cfg now m (counting n) w = tt
after_wait-Within cfg now m (open_since none) w = tt
after_wait-Within cfg now m (open_since (some t)) w = ground arith
after_wait-Within cfg now m (probing n) w = w

wait_all-Within :
    (cfg : CircuitBreakerConfig) (clock : ℕ → ℕ) (i : ℕ) (pool : List BackendId) (j : BackendId)
    (m : ℕ) (p : Phase)
    → Within m p
    → Within m (wait_all cfg clock i pool j p)
unfolding wait_all
wait_all-Within cfg clock i [] j m p w = w
wait_all-Within cfg clock i (b ∷ rest) j m p w =
    wait_all-Within cfg clock (i + 1) rest j m (if b == j then after_wait cfg (clock i) p else p)
      (ground (arith, after_wait-Within cfg (clock i) m p w))

wait_all-probing :
    (cfg : CircuitBreakerConfig) (clock : ℕ → ℕ) (i : ℕ) (pool : List BackendId) (j : BackendId)
    (n : ℕ)
    → wait_all cfg clock i pool j (probing n) ≡ probing n
unfolding wait_all after_wait
wait_all-probing cfg clock i [] j n = refl
wait_all-probing cfg clock i (b ∷ rest) j n =
    ground (arith, wait_all-probing cfg clock (i + 1) rest j n)

-- One more probe, for a machine that is probing.
abbrev probed : Phase → Phase
probed (counting n) = counting n
probed (open_since at) = open_since at
probed (probing n) = probing ((n + 1) % u64_mod)

abbrev probed_if : Bool → Phase → Phase
probed_if true p = probed p
probed_if false p = p

abbrev is_send : RoutingDecision → BackendId → Bool
is_send (send b) j = b == j
is_send (hedge bs) j = false
is_send (reject status) j = false

count_probe-phase :
    (s : Breakers) (d : RoutingDecision) (j : BackendId)
    → phase (count_probe s d) j ≡ probed_if (is_send d j) (phase s j)
unfolding count_probe phase look
count_probe-phase s (send b) j = ground arith
count_probe-phase s (hedge bs) j = refl
count_probe-phase s (reject status) j = refl

-- No machine has more probes in flight than the configuration allows.
pub record HasBudget (cfg : CircuitBreakerConfig) (s : Breakers) : Type 0 where
  pub each : (b : BackendId) → Within cfg.half_open_max (phase s b)

not-IsShut-probed :
    (cfg : CircuitBreakerConfig) (p : Phase)
    → (IsShut cfg p → ⊥)
    → Within cfg.half_open_max (probed p)
not-IsShut-probed cfg (counting n) h = tt
not-IsShut-probed cfg (open_since at) h = tt
not-IsShut-probed cfg (probing n) h = elim (dec_le cfg.half_open_max n) [
  | yes le ↦ absurd (h le)
  | no lt ↦ omega arith
]

abbrev Sends : RoutingDecision → BackendId → Type 0
Sends d j = is_send d j ≡ true

is_send-contains : (d : RoutingDecision) (j : BackendId) → Sends d j → contains (targets d) j ≡ true
is_send-contains (send b) j h = ground arith
is_send-contains (hedge bs) j h = cc
is_send-contains (reject status) j h = cc

module _ (cfg : CircuitBreakerConfig) (inner : Router) (heeds : AvoidsOpen inner) where
  -- Over an inner router that heeds the signals, which means that it names no backend
  -- whose circuit they show as open (round robin and the constant router do not heed them), for
  -- valid breakers, and if the decision names backends of the pool only: `route` keeps every machine
  -- within its probe budget. Hedged decisions are not counted as probes.
  pub route-HasBudget :
      (clock : ℕ → ℕ) (s : Breakers) (r : inner.State) (req : Request) (pool : BackendPool)
      (signals : BackendSignals)
      → IsValid s
      → ((b : BackendId)
          → contains (targets (route cfg inner clock (s, r) req pool signals).0) b ≡ true
          → contains pool.backends b ≡ true)
      → HasBudget cfg s
      → HasBudget cfg (route cfg inner clock (s, r) req pool signals).1.0
  unfolding route
  route-HasBudget clock s r req pool signals v stays h = record {
    each = λ j.
        let s' = prepare cfg clock 0 pool.backends s in
        let d = (inner.route r req pool (build_signals cfg s' pool signals)).0 in
        let (p, w) = prepare-phase cfg clock 0 pool.backends s j v in
        rw (count_probe-phase s' d j) (elim (Bool-cases (is_send d j)) [
          | inl sent ↦ rw sent (
              not-IsShut-probed cfg (phase s' j) λ shut.
                let member = stays j (is_send-contains d j sent) in
                let absent =
                  not-contains-targets cfg inner heeds s' r req pool signals j (phase s' j) member
                    refl shut in
                cc (absent, is_send-contains d j sent))
          | inr other ↦
              rw (other, p)
                (wait_all-Within cfg clock 0 pool.backends j cfg.half_open_max (phase s j)
                  (h.each j))
        ]);
  }

  -- Over an inner router that heeds the signals, which means that it names no backend
  -- whose circuit they show as open (round robin and the constant router do not heed them), and for
  -- valid breakers: a half-open backend of the pool whose probes are all in flight is not named by
  -- the decision of `route`, whatever the clock, and `route` leaves its machine as it is.
  pub route-exhausted :
      (clock : ℕ → ℕ) (s : Breakers) (r : inner.State) (req : Request) (pool : BackendPool)
      (signals : BackendSignals) (b : BackendId) (n : ℕ)
      → IsValid s
      → contains pool.backends b ≡ true
      → phase s b ≡ probing n
      → cfg.half_open_max ≤ n
      → (contains (targets (route cfg inner clock (s, r) req pool signals).0) b ≡ false)
        × (phase (route cfg inner clock (s, r) req pool signals).1.0 b ≡ probing n)
  unfolding route
  route-exhausted clock s r req pool signals b n v member e full =
      let s' = prepare cfg clock 0 pool.backends s in
      let d = (inner.route r req pool (build_signals cfg s' pool signals)).0 in
      let (p, w) = prepare-phase cfg clock 0 pool.backends s b v in
      let now =
        p
        ∙ ap (wait_all cfg clock 0 pool.backends b) e
        ∙ wait_all-probing cfg clock 0 pool.backends b n in
      let absent =
        not-contains-targets cfg inner heeds s' r req pool signals b (probing n) member now full in
      (
        absent,
        count_probe-phase s' d b ∙ (elim (Bool-cases (is_send d b)) [
          | inl sent ↦ cc (absent, is_send-contains d b sent)
          | inr other ↦ rw other now
        ]),
      )

after_outcome-Within :
    (cfg : CircuitBreakerConfig) (now m : ℕ) (failed : Bool) (p : Phase)
    → Within m p
    → Within m (after_outcome cfg now failed p)
unfolding after_outcome
after_outcome-Within cfg now m failed (counting n) w = ground arith
after_outcome-Within cfg now m failed (open_since at) w = tt
after_outcome-Within cfg now m failed (probing n) w = ground arith

-- Recording an outcome keeps every machine within its probe budget.
pub record_outcome-HasBudget :
    (cfg : CircuitBreakerConfig) (now : ℕ) (s : Breakers) (outcome : Outcome)
    → cfg.failure_threshold < u32_mod
    → IsValid s
    → HasBudget cfg s
    → HasBudget cfg (record_outcome cfg now s outcome)
record_outcome-HasBudget cfg now s outcome small v h = record {
  each = λ j. rw ((record_outcome-phase cfg now s outcome j small v).0) (
      ground (
        arith,
        h.each j,
        after_outcome-Within cfg now cfg.half_open_max (is_failure outcome) (phase s j),
      ));
}
