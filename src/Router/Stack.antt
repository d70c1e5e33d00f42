-- ===== src/Router/Stack.antt =====
-- crates/riftgate/src/main.rs: the routers as the binary stacks them, the breakers outermost.
mod Tests
pub mod Guard
use riftgate.Base.{ℕ, Bool}
use riftgate.Core.Request.{Bytes}
use riftgate.Core.Router.{Router, F32}
use riftgate.Router.Weighted.{weighted}
use riftgate.Router.KvAware.{KvAwareConfig, kv_aware}
use riftgate.Router.P2.{Floats}
use riftgate.Router.Hedged.{HedgedConfig, hedged}

-- Everything within the breakers.
abbrev pub inner_stack :
    (F32 → Bool) → (Bytes → ℕ) → KvAwareConfig → (f : Floats) → HedgedConfig f → Router
inner_stack at_threshold xxh3_64 kv_cfg f hedge_cfg =
    hedged f hedge_cfg (kv_aware xxh3_64 kv_cfg (weighted at_threshold))
