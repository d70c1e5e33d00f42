-- ===== src/Core/Cancel/Tests.antt =====
-- Two threads: the first cancels after the second has exchanged.
use riftgate.Base.{◌+◌, ◌≡◌, ◌≢◌, refl, true, [], ◌∷◌, ◌++◌}
use riftgate.Core.Cancel.{
  not_cancelled, draining, hedge_lost, exchange, cancel_token, observed_cause, new_state,
}
use riftgate.Core.Cancel.Trips.{
  World, start_world, exchanging, cancelling, Reach, start, next, first_cause, Reach-first_cause,
}

abbrev tripped : World
tripped = record {
  state = cancel_token (exchange (exchange new_state draining) hedge_lost);
  between = 1;
  tried = draining ∷ hedge_lost ∷ [];
}

abbrev one : World
one = record { state = exchange new_state draining; between = 0 + 1; tried = [] ++ draining ∷ [] }

abbrev two : World
two = record {
  state = exchange one.state hedge_lost;
  between = one.between + 1;
  tried = one.tried ++ hedge_lost ∷ [];
}

two-Reach : Reach two
two-Reach =
    next (next start (exchanging start_world draining (λ e. cc e)))
      (exchanging one hedge_lost (λ e. cc e))

tripped-Reach : Reach tripped
tripped-Reach = next two-Reach (cancelling two 1 refl)

Reach-first_cause_example :
    (observed_cause tripped.state ≡ first_cause tripped.tried)
    × (tripped.state.token ≡ true → observed_cause tripped.state ≢ not_cancelled)
Reach-first_cause_example = Reach-first_cause tripped-Reach
