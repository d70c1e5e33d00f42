-- ===== src/Router/Hedged.antt =====
-- crates/riftgate-router/src/hedged.rs: the decorator that promotes decisions to hedges.
mod Tests
pub mod Budget
pub mod Pairs
use riftgate.Base.{
  ℕ, zero, suc, ◌+◌, ◌%◌, ◌^◌, Bool, true, false, ◌&&◌, not, Option, none, some, List, [], ◌∷◌, ltb,
  leb, ◌==◌, if◌then◌else◌, Map, put, ℕ_discrete,
}
use riftgate.Core.Request.{Request}
use riftgate.Core.Router.{
  Router, BackendId, BackendPool, BackendSignals, CircuitState, closed, opened, half_open, F32,
  RoutingDecision, send, hedge, reject, Outcome, get_signal,
}
use riftgate.Router.P2.{Floats, P2Estimator, new_estimator, observe, quantile}

abbrev pub u64_mod : ℕ
u64_mod = 2 ^ 64

abbrev pub is_closed_state : CircuitState → Bool
is_closed_state closed = true
is_closed_state opened = false
is_closed_state half_open = false

-- The first backend of the pool other than the primary whose circuit is closed.
pub pick_from : BackendId → BackendSignals → List BackendId → Option BackendId
pick_from primary signals [] = none
pick_from primary signals (b ∷ bs) =
    if not (b == primary) && is_closed_state (get_signal signals b).circuit_state
    then some b
    else pick_from primary signals bs

pub pick_secondary : BackendId → BackendPool → BackendSignals → Option BackendId
unfolding pick_from
pick_secondary primary pool signals = pick_from primary signals pool.backends

module _ (f : Floats) where
  pub record HedgedConfig : Type 0 where
    pub hedge_after_quantile : f.F
    pub hedge_max_fraction : f.F
    pub hedge_min_threshold_ms : F32
    pub warmup_observations : ℕ

  -- The state of the router beside the inner router's.
  pub record HedgeState : Type 0 where
    pub estimators : Map BackendId (P2Estimator f)
    pub decisions_total : ℕ
    pub hedges_total : ℕ
    pub budget_blocked : ℕ

  pub new : HedgeState
  new = record { estimators = λ b. none; decisions_total = 0; hedges_total = 0; budget_blocked = 0 }

  pub record HedgeStats : Type 0 where
    pub decisions : ℕ
    pub hedges_fired : ℕ
    pub budget_blocked : ℕ

  pub stats : HedgeState → HedgeStats
  stats s = record {
    decisions = s.decisions_total;
    hedges_fired = s.hedges_total;
    budget_blocked = s.budget_blocked;
  }

  abbrev or_new : f.F → Option (P2Estimator f) → P2Estimator f
  or_new p none = new_estimator f p
  or_new p (some e) = e

  -- The quantile of an estimator that has digested enough observations.
  pub warm_quantile : HedgedConfig → Option (P2Estimator f) → Option f.F
  warm_quantile cfg none = none
  warm_quantile cfg (some e) = if leb cfg.warmup_observations e.count then quantile f e else none

  pub observed_quantile_ms : HedgeState → BackendId → Option F32
  observed_quantile_ms s backend = elim (s.estimators backend) [
    | none ↦ none
    | some e ↦ elim (quantile f e) [ none ↦ none | some q ↦ some (f.to_f32 q) ]
  ]

  pub budget_allows : HedgedConfig → HedgeState → Bool
  budget_allows cfg s =
      if s.decisions_total == 0
      then true
      else f.ltf (f.div (f.lit s.hedges_total) (f.lit s.decisions_total)) cfg.hedge_max_fraction

  -- The last step of `route`, with the secondary that was picked.
  pub fire : HedgeState → BackendId → Option BackendId → RoutingDecision × HedgeState
  fire s primary none = (send primary, s)
  fire s primary (some secondary) =
      (hedge (primary ∷ secondary ∷ []), record s { hedges_total = (s.hedges_total + 1) % u64_mod })

  pub consider_hedge :
      HedgedConfig
      → HedgeState
      → BackendId
      → BackendPool
      → BackendSignals
      → Option f.F
      → RoutingDecision × HedgeState
  consider_hedge cfg s primary pool signals none = (send primary, s)
  consider_hedge cfg s primary pool signals (some q_ms) =
      if f.lt_f32 (f.to_f32 q_ms) cfg.hedge_min_threshold_ms
      then (send primary, s)
      else if not (budget_allows cfg s)
      then (send primary, record s { budget_blocked = (s.budget_blocked + 1) % u64_mod })
      else fire s primary (pick_secondary primary pool signals)

  pub promote :
      HedgedConfig
      → HedgeState
      → RoutingDecision
      → BackendPool
      → BackendSignals
      → RoutingDecision × HedgeState
  promote cfg s (send primary) pool signals =
      consider_hedge cfg s primary pool signals (warm_quantile cfg (s.estimators primary))
  promote cfg s (hedge bs) pool signals = (hedge bs, s)
  promote cfg s (reject status) pool signals = (reject status, s)

  pub digest : HedgedConfig → HedgeState → Outcome → HedgeState
  digest cfg s outcome =
      let ms = f.mul (f.as_secs_f64 outcome.duration) (f.lit 1000) in
      let e = or_new cfg.hedge_after_quantile (s.estimators outcome.backend) in
      record s { estimators = put ℕ_discrete s.estimators outcome.backend (observe f e ms) }

  pub count_decision : HedgeState → HedgeState
  count_decision s = record s { decisions_total = (s.decisions_total + 1) % u64_mod }

  module _ (cfg : HedgedConfig) (inner : Router) where
    abbrev pub State : Type 0
    State = HedgeState × inner.State

    pub route : State → Request → BackendPool → BackendSignals → RoutingDecision × State
    route (s, r) req pool signals =
        let (decision, r') = inner.route r req pool signals in
        let (promoted, s') = promote cfg (count_decision s) decision pool signals in
        (promoted, (s', r'))

    pub on_response : State → RoutingDecision → Outcome → State
    on_response (s, r) decision outcome =
        (digest cfg s outcome, inner.on_response r decision outcome)

    abbrev pub hedged : Router
    hedged = record { State = State; route = route; on_response = on_response }
