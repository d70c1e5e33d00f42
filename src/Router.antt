-- ===== src/Router.antt =====
-- riftgate-router: the routing strategies and the decorators over them.
pub mod Strategies
pub mod Circuit
pub mod Weighted
pub mod KvAware
pub mod P2
pub mod Hedged
pub mod Stack
