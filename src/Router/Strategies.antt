-- ===== src/Router/Strategies.antt =====
-- crates/riftgate-router/src/round_robin.rs and constant.rs.
mod Tests
pub mod Fairness
use riftgate.Base.{ℕ, ◌+◌, ◌%◌, ◌^◌, Option, none, some, List, [], ◌∷◌}
use riftgate.Core.Request.{Request, bad_gateway}
use riftgate.Core.Router.{
  Router, BackendId, BackendPool, BackendSignals, RoutingDecision, send, reject, get_modulo,
  Outcome,
}

-- A usize has 64 bits.
abbrev pub usize_mod : ℕ
usize_mod = 2 ^ 64

abbrev pub or_bad_gateway : Option BackendId → RoutingDecision
or_bad_gateway none = reject bad_gateway
or_bad_gateway (some b) = send b

-- The cursor is the state. `get_modulo` fails on the empty pool only, where the code rejects
-- before it touches the cursor.
pub route_round_robin : ℕ → BackendPool → RoutingDecision × ℕ
unfolding get_modulo
route_round_robin cursor pool = elim pool.backends [
  | [] ↦ (reject bad_gateway, cursor)
  | _ ∷ _ ↦ (or_bad_gateway (get_modulo pool cursor), (cursor + 1) % usize_mod)
]

abbrev pub round_robin : Router
round_robin = record {
  State = ℕ;
  route = λ cursor req pool signals. route_round_robin cursor pool;
  on_response = λ cursor decision outcome. cursor;
}

abbrev pub constant : BackendId → Router
constant id = record {
  State = Unit {0};
  route = λ s req pool signals. (send id, s);
  on_response = λ s decision outcome. s;
}
