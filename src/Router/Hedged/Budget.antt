-- ===== src/Router/Hedged/Budget.antt =====
-- The share of the decisions that are promoted, over a run of calls.
use riftgate.Base.{
  ℕ, suc, ◌+◌, ◌*◌, ◌%◌, ◌<◌, ◌≤◌, true, Option, none, some, List, [], ◌∷◌, ◌==◌, ◌≡◌, arith,
  length, Bool-cases, inl, inr,
}
use riftgate.Core.Request.{Request}
use riftgate.Core.Router.{
  Router, BackendId, BackendPool, BackendSignals, RoutingDecision, send, hedge, reject, Outcome,
}
use riftgate.Router.P2.{Floats}
use riftgate.Router.Hedged.{
  HedgedConfig, HedgeState, new, fire, consider_hedge, promote, route, on_response, State,
  count_decision, digest, warm_quantile, budget_allows, u64_mod, pick_secondary, stats,
}

pub data Call : Type 0 where
  routed : Request → BackendPool → BackendSignals → Call
  responded : RoutingDecision → Outcome → Call

module _ (f : Floats) (cfg : HedgedConfig f) where
  -- The division test of the source answers yes only below the fraction `num / den`.
  abbrev pub IsFraction : ℕ → ℕ → Type 0
  IsFraction num den =
      (hedges decisions : ℕ)
      → f.ltf (f.div (f.lit hedges) (f.lit decisions)) cfg.hedge_max_fraction ≡ true
      → hedges * den < num * decisions

  -- At most `n` decisions are counted, and the hedges are in proportion.
  abbrev IsWithin : ℕ → ℕ → ℕ → HedgeState f → Type 0
  IsWithin num den n s =
      (s.decisions_total ≤ n)
      × (s.hedges_total ≤ s.decisions_total)
      × (s.hedges_total * den < num * s.decisions_total + den)

  -- The same between the count of a decision and its promotion.
  abbrev IsCounted : ℕ → ℕ → ℕ → HedgeState f → Type 0
  IsCounted num den n s =
      (s.decisions_total ≤ n)
      × (s.hedges_total < s.decisions_total)
      × (s.hedges_total * den < num * s.decisions_total + den)

  count_decision-IsCounted :
      (num den n : ℕ) (s : HedgeState f)
      → suc n < u64_mod
      → IsWithin num den n s
      → IsCounted num den (suc n) (count_decision f s)
  unfolding count_decision
  count_decision-IsCounted num den n s small (le, few, share) =
      let same : (s.decisions_total + 1) % u64_mod ≡ s.decisions_total + 1 = omega arith in
      rw same (omega arith, omega arith, grind arith)

  budget-share :
      (num den n : ℕ) (s : HedgeState f)
      → IsFraction num den
      → IsCounted num den n s
      → budget_allows f cfg s ≡ true
      → s.hedges_total * den < num * s.decisions_total
  unfolding budget_allows
  budget-share num den n s exact (le, few, share) e = elim (Bool-cases (s.decisions_total == 0)) [
    | inl fresh ↦ absurd (ground (arith, fresh))
    | inr some_yet ↦ exact s.hedges_total s.decisions_total (rw some_yet at e)
  ]

  fire-IsWithin :
      (num den n : ℕ) (s : HedgeState f) (primary : BackendId) (o : Option BackendId)
      → n < u64_mod
      → IsCounted num den n s
      → s.hedges_total * den < num * s.decisions_total
      → IsWithin num den n (fire f s primary o).1
  unfolding fire
  fire-IsWithin num den n s primary none small (le, few, share) left = (le, ground arith, share)
  fire-IsWithin num den n s primary (some b) small (le, few, share) left =
      let same : (s.hedges_total + 1) % u64_mod ≡ s.hedges_total + 1 = omega arith in
      rw same (le, omega arith, grind arith)

  weaken-IsCounted :
      (num den n : ℕ) (s : HedgeState f) → IsCounted num den n s → IsWithin num den n s
  weaken-IsCounted num den n s (le, few, share) = (le, omega arith, share)

  consider_hedge-IsWithin :
      (num den n : ℕ) (s : HedgeState f) (primary : BackendId) (pool : BackendPool)
      (signals : BackendSignals) (o : Option f.F)
      → IsFraction num den
      → n < u64_mod
      → IsCounted num den n s
      → IsWithin num den n (consider_hedge f cfg s primary pool signals o).1
  unfolding consider_hedge
  consider_hedge-IsWithin num den n s primary pool signals none exact small h =
      weaken-IsCounted num den n s h
  consider_hedge-IsWithin num den n s primary pool signals (some q) exact small h =
      elim (Bool-cases (f.lt_f32 (f.to_f32 q) cfg.hedge_min_threshold_ms)) [
        | inl fast ↦ rw fast (weaken-IsCounted num den n s h)
        | inr slow ↦ elim (Bool-cases (budget_allows f cfg s)) [
          | inr spent ↦ rw (slow, spent) (weaken-IsCounted num den n s h)
          | inl left ↦
              rw (slow, left)
                (fire-IsWithin num den n s primary (pick_secondary primary pool signals) small h
                  (budget-share num den n s exact h left))
        ]
      ]

  promote-IsWithin :
      (num den n : ℕ) (s : HedgeState f) (decision : RoutingDecision) (pool : BackendPool)
      (signals : BackendSignals)
      → IsFraction num den
      → n < u64_mod
      → IsCounted num den n s
      → IsWithin num den n (promote f cfg s decision pool signals).1
  unfolding promote
  promote-IsWithin num den n s (send primary) pool signals exact small h =
      consider_hedge-IsWithin num den n s primary pool signals
        (warm_quantile f cfg (s.estimators primary)) exact small h
  promote-IsWithin num den n s (hedge bs) pool signals exact small h =
      weaken-IsCounted num den n s h
  promote-IsWithin num den n s (reject status) pool signals exact small h =
      weaken-IsCounted num den n s h

  module _ (inner : Router) where
    abbrev pub step : State f cfg inner → Call → State f cfg inner
    step s (routed req pool signals) = (route f cfg inner s req pool signals).1
    step s (responded decision outcome) = on_response f cfg inner s decision outcome

    pub run : State f cfg inner → List Call → State f cfg inner
    run s [] = s
    run s (call ∷ calls) = run (step s call) calls

    step-IsWithin :
        (num den n : ℕ) (s : HedgeState f) (r : inner.State) (call : Call)
        → IsFraction num den
        → suc n < u64_mod
        → IsWithin num den n s
        → IsWithin num den (suc n) (step (s, r) call).0
    unfolding route on_response digest
    step-IsWithin num den n s r (routed req pool signals) exact small h =
        promote-IsWithin num den (suc n) (count_decision f s) (inner.route r req pool signals).0
          pool signals exact small (count_decision-IsCounted num den n s small h)
    step-IsWithin num den n s r (responded decision outcome) exact small (le, few, share) =
        (omega arith, few, share)

    run-IsWithin :
        (num den : ℕ) (calls : List Call) (n : ℕ) (s : HedgeState f) (r : inner.State)
        → IsFraction num den
        → n + length calls < u64_mod
        → IsWithin num den n s
        → IsWithin num den (n + length calls) (run (s, r) calls).0
    unfolding run
    run-IsWithin num den [] n s r exact small h = (let same : n + 0 ≡ n = omega arith in rw same h)
    run-IsWithin num den (call ∷ calls) n s r exact small h =
        let next = step (s, r) call in
        let shift : n + suc (length calls) ≡ suc n + length calls = omega arith in
        rw shift (
          run-IsWithin num den calls (suc n) next.0 next.1 exact (omega arith)
            (step-IsWithin num den n s r call exact (omega arith) h))

    -- In every run of fewer than 2^64 calls from a new router whose division test is that of the
    -- fraction `num / den`, the hedges are fewer than that share of the decisions plus one.
    pub hedges-share :
        (num den : ℕ) (calls : List Call) (r : inner.State)
        → 0 < den
        → IsFraction num den
        → length calls < u64_mod
        → (stats f (run (new f, r) calls).0).hedges_fired * den
          < num * (stats f (run (new f, r) calls).0).decisions + den
    unfolding new stats
    hedges-share num den calls r some_den exact small =
        (run-IsWithin num den calls 0 (new f) r exact (omega arith)
          (omega arith, omega arith, omega arith)).2
