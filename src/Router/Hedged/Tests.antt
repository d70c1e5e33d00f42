-- ===== src/Router/Hedged/Tests.antt =====
-- Runs of the hedging router over a constant one.
use riftgate.Base.{◌+◌, ◌*◌, ◌<◌, refl, true, none, List, [], ◌∷◌, arith}
use riftgate.Core.Request.{Request, get, empty}
use riftgate.Core.Router.{BackendPool, BackendSignals, send, Outcome}
use riftgate.Router.Strategies.{constant}
use riftgate.Router.P2.Tests.{fractions}
use riftgate.Router.Hedged.{HedgedConfig, new, route, stats}
use riftgate.Router.Hedged.Pairs.{IsPromotion, route-pairs}
use riftgate.Router.Hedged.Budget.{Call, routed, responded, run, IsFraction, hedges-share}

abbrev config : HedgedConfig fractions
config = record {
  hedge_after_quantile = (19, 20);
  hedge_max_fraction = (1, 20);
  hedge_min_threshold_ms = 50;
  warmup_observations = 1;
}

abbrev request : Request
request = record {
  id = 1;
  method = get;
  path = [];
  headers = record { entries = [] };
  body = empty;
}

abbrev two_backends : BackendPool
two_backends = record { backends = 4 ∷ 5 ∷ [] }

abbrev no_signals : BackendSignals
no_signals = record { signals = [] }

abbrev slow : Outcome
slow = record { backend = 4; status = none; duration = 900000000; ok = true }

abbrev calls : List Call
calls =
    responded (send 4) slow
    ∷ routed request two_backends no_signals
    ∷ routed request two_backends no_signals
    ∷ []

config-IsFraction : IsFraction fractions config 1 20
config-IsFraction hedges decisions e = ground arith

hedges-share_example :
    (stats fractions (run fractions config (constant 4) (new fractions, tt) calls).0).hedges_fired
      * 20
    < 1
        * (stats fractions
            (run fractions config (constant 4) (new fractions, tt) calls).0).decisions
      + 20
hedges-share_example =
    hedges-share fractions config (constant 4) 1 20 calls tt (omega arith) config-IsFraction
      (omega arith)

route-pairs_example :
    IsPromotion fractions config 4 two_backends no_signals
      (route fractions config
        (constant 4)
        (run fractions config (constant 4) (new fractions, tt) calls)
        request
        two_backends
        no_signals).0
route-pairs_example =
    let s = run fractions config (constant 4) (new fractions, tt) calls in
    route-pairs fractions config (constant 4) s.0 s.1 request two_backends no_signals 4 refl
