-- ===== src/Router/Hedged/Pairs.antt =====
-- What a hedge names: two backends, the second one closed and of the pool.
use riftgate.Base.{
  true, Option, none, some, List, [], ◌∷◌, ◌==◌, ◌≡◌, ◌≢◌, refl, arith, ==_iff, Bool-cases, inl,
  inr, ◌⊎◌, ==_refl, subst,
}
use riftgate.Core.Request.{Request}
use riftgate.Core.Router.{
  Router, BackendId, BackendPool, BackendSignals, CircuitState, closed, opened, half_open,
  RoutingDecision, send, hedge, reject, get_signal, contains, targets, AvoidsOpen,
}
use riftgate.Router.P2.{Floats}
use riftgate.Router.Hedged.{
  HedgedConfig, HedgeState, pick_from, pick_secondary, fire, consider_hedge, promote, route, hedged,
  count_decision, warm_quantile, budget_allows, is_closed_state,
}

closed-of_test : (c : CircuitState) → is_closed_state c ≡ true → c ≡ closed
closed-of_test closed e = refl
closed-of_test opened e = cc
closed-of_test half_open e = cc

abbrev pub IsSecondary : BackendId → BackendSignals → List BackendId → BackendId → Type 0
IsSecondary primary signals bs b =
    (b ≢ primary) × ((get_signal signals b).circuit_state ≡ closed) × (contains bs b ≡ true)

later-IsSecondary :
    (primary : BackendId) (signals : BackendSignals) (c : BackendId) (cs : List BackendId)
    (b : BackendId)
    → IsSecondary primary signals cs b
    → IsSecondary primary signals (c ∷ cs) b
later-IsSecondary primary signals c cs b (other, shut, member) =
    (other, shut, ground (arith, member))

pick_from-some :
    (primary : BackendId) (signals : BackendSignals) (bs : List BackendId) (b : BackendId)
    → pick_from primary signals bs ≡ some b
    → IsSecondary primary signals bs b
unfolding pick_from
pick_from-some primary signals [] b e = cc
pick_from-some primary signals (c ∷ cs) b e = elim (Bool-cases (c == primary)) [
  | inl same ↦
      later-IsSecondary primary signals c cs b (pick_from-some primary signals cs b (rw same at e))
  | inr other ↦ elim (Bool-cases (is_closed_state (get_signal signals c).circuit_state)) [
    | inl shut ↦
        let here : c ≡ b = cc (rw (other, shut) at e) in
        subst (IsSecondary primary signals (c ∷ cs)) here
          ((λ q. cc (other, ==_refl c, q)), closed-of_test _ shut, rw (==_refl c) refl)
    | inr ajar ↦
        later-IsSecondary primary signals c cs b
          (pick_from-some primary signals cs b (rw (other, ajar) at e))
  ]
]

module _ (f : Floats) (cfg : HedgedConfig f) where
  -- A promoted decision is the primary with a secondary, or else it is left as it was.
  abbrev pub IsPromotion : BackendId → BackendPool → BackendSignals → RoutingDecision → Type 0
  IsPromotion primary pool signals decision =
      (decision ≡ send primary)
      ⊎ ((b : BackendId) × (decision ≡ hedge (primary ∷ b ∷ []))
          × IsSecondary primary signals pool.backends b)

  fire-IsPromotion :
      (s : HedgeState f) (primary : BackendId) (pool : BackendPool) (signals : BackendSignals)
      (o : Option BackendId)
      → pick_secondary primary pool signals ≡ o
      → IsPromotion primary pool signals (fire f s primary o).0
  unfolding fire pick_secondary
  fire-IsPromotion s primary pool signals none e = inl refl
  fire-IsPromotion s primary pool signals (some b) e =
      inr (b, refl, pick_from-some primary signals pool.backends b e)

  consider_hedge-IsPromotion :
      (s : HedgeState f) (primary : BackendId) (pool : BackendPool) (signals : BackendSignals)
      (o : Option f.F)
      → IsPromotion primary pool signals (consider_hedge f cfg s primary pool signals o).0
  unfolding consider_hedge
  consider_hedge-IsPromotion s primary pool signals none = inl refl
  consider_hedge-IsPromotion s primary pool signals (some q) =
      elim (Bool-cases (f.lt_f32 (f.to_f32 q) cfg.hedge_min_threshold_ms)) [
        | inl fast ↦ rw fast (inl refl)
        | inr slow ↦ elim (Bool-cases (budget_allows f cfg s)) [
          | inr spent ↦ rw (slow, spent) (inl refl)
          | inl left ↦
              rw (slow, left)
                (fire-IsPromotion s primary pool signals (pick_secondary primary pool signals) refl)
        ]
      ]

  hedge-targets :
      (primary c : BackendId) (signals : BackendSignals) (b : BackendId)
      → (get_signal signals c).circuit_state ≡ closed
      → contains (primary ∷ c ∷ []) b ≡ true
      → (contains (primary ∷ []) b ≡ true) ⊎ ((get_signal signals b).circuit_state ≡ closed)
  hedge-targets primary c signals b shut e = elim (Bool-cases (primary == b)) [
    | inl same ↦ inl (ground (arith, same))
    | inr other ↦
        let here : c ≡ b = (==_iff c b).0 (ground (arith, other, e)) in
        inr (subst (λ x. (get_signal signals x).circuit_state ≡ closed) here shut)
  ]

  promote-targets :
      (s : HedgeState f) (decision : RoutingDecision) (pool : BackendPool)
      (signals : BackendSignals) (b : BackendId)
      → contains (targets (promote f cfg s decision pool signals).0) b ≡ true
      → (contains (targets decision) b ≡ true) ⊎ ((get_signal signals b).circuit_state ≡ closed)
  unfolding promote
  promote-targets s (hedge bs) pool signals b e = inl e
  promote-targets s (reject status) pool signals b e = inl e
  promote-targets s (send primary) pool signals b e =
      elim (consider_hedge-IsPromotion s primary pool signals
        (warm_quantile f cfg (s.estimators primary))) [
          | inl sent ↦ inl (rw sent at e)
          | inr pair ↦
              let (c, hedged_to, named) = pair in
              hedge-targets primary c signals b named.1 (rw hedged_to at e)
        ]

  module _ (inner : Router) where
    -- If the inner router never names a backend whose circuit is open, neither does this router.
    pub hedged-AvoidsOpen : AvoidsOpen inner → AvoidsOpen (hedged f cfg inner)
    unfolding route
    hedged-AvoidsOpen heeds (s, r) req pool signals b e =
        elim (promote-targets (count_decision f s) (inner.route r req pool signals).0 pool signals b
          e) [ inl named ↦ heeds r req pool signals b named | inr shut ↦ λ o. cc ]

    -- Where the inner router sends to one backend, the decision is that backend alone, or a hedge
    -- of it and one other backend of the pool whose circuit is closed.
    pub route-pairs :
        (s : HedgeState f) (r : inner.State) (req : Request) (pool : BackendPool)
        (signals : BackendSignals) (primary : BackendId)
        → (inner.route r req pool signals).0 ≡ send primary
        → IsPromotion primary pool signals (route f cfg inner (s, r) req pool signals).0
    unfolding route promote
    route-pairs s r req pool signals primary e = rw e (
        consider_hedge-IsPromotion (count_decision f s) primary pool signals
          (warm_quantile f cfg ((count_decision f s).estimators primary)))
