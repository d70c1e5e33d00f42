-- ===== src/Core/Router.antt =====
-- crates/riftgate-core/src/router.rs: pools, signals, decisions, and the `Router` trait.
use riftgate.Base.{
  ℕ, suc, ◌%◌, ◌≡◌, ◌≢◌, ◌||◌, Bool, true, false, Option, none, some, List, [], ◌∷◌, ◌==◌, length,
  get_elem?,
}
use riftgate.Core.Request.{Request, StatusCode}

abbrev pub BackendId : Type 0
BackendId = ℕ

pub data CircuitState : Type 0 where
  closed opened half_open : CircuitState

-- An f32 is its bit pattern; that of 0.0 is 0.
abbrev pub F32 : Type 0
F32 = ℕ

pub record BackendSignal : Type 0 where
  pub circuit_state : CircuitState
  pub gpu_pressure : Option F32
  pub recent_p99_ms : F32

abbrev pub default_signal : BackendSignal
default_signal = record { circuit_state = closed; gpu_pressure = none; recent_p99_ms = 0 }

pub record BackendSignals : Type 0 where
  pub signals : List BackendSignal

abbrev unwrap_or_default : Option BackendSignal → BackendSignal
unwrap_or_default none = default_signal
unwrap_or_default (some s) = s

unfoldable pub get_signal : BackendSignals → BackendId → BackendSignal
get_signal s id = unwrap_or_default (get_elem? s.signals id)

pub record BackendPool : Type 0 where
  pub backends : List BackendId

-- `backends[index % backends.len()]`.
unfoldable pub get_modulo : BackendPool → ℕ → Option BackendId
get_modulo pool index = elim pool.backends [
  | [] ↦ none
  | b ∷ rest ↦ get_elem? (b ∷ rest) (index % suc (length rest))
]

pub data RoutingDecision : Type 0 where
  send : BackendId → RoutingDecision
  hedge : List BackendId → RoutingDecision
  reject : StatusCode → RoutingDecision

-- `duration` is a number of nanoseconds.
pub record Outcome : Type 0 where
  pub backend : BackendId
  pub status : Option StatusCode
  pub duration : ℕ
  pub ok : Bool

-- The trait: a router's state with its two operations. `on_response` of a router that does not
-- define it leaves the state alone.
pub record Router : Type 1 where
  pub State : Type 0
  pub route : State → Request → BackendPool → BackendSignals → RoutingDecision × State
  pub on_response : State → RoutingDecision → Outcome → State

-- The backends that a decision sends to.
abbrev pub targets : RoutingDecision → List BackendId
targets (send b) = b ∷ []
targets (hedge bs) = bs
targets (reject s) = []

abbrev pub contains : List BackendId → BackendId → Bool
contains [] b = false
contains (x ∷ xs) b = x == b || contains xs b

-- No decision names a backend whose signal says that its circuit is open.
abbrev pub AvoidsOpen : Router → Type 0
AvoidsOpen r =
    (s : r.State) (req : Request) (pool : BackendPool) (signals : BackendSignals) (b : BackendId)
    → contains (targets (r.route s req pool signals).0) b ≡ true
    → (get_signal signals b).circuit_state ≢ opened
