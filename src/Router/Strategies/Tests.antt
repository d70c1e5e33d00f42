-- ===== src/Router/Strategies/Tests.antt =====
-- A turn of round robin.
use riftgate.Base.{◌+◌, ◌++◌, ◌≡◌, [], ◌∷◌, arith, map}
use riftgate.Core.Router.{send}
use riftgate.Router.Strategies.Fairness.{decisions, decisions-round}

decisions-round_example :
    decisions 3 10 (record { backends = 4 ∷ 5 ∷ 6 ∷ [] })
    ≡ (map send (5 ∷ 6 ∷ []) ++ map send (4 ∷ []), 10 + 3)
decisions-round_example = decisions-round (4 ∷ 5 ∷ 6 ∷ []) 10 (omega arith) (omega arith)
