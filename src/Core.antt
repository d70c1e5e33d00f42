-- ===== src/Core.antt =====
-- riftgate-core
pub mod Backpressure
pub mod Cancel
pub mod RateLimit
pub mod Request
pub mod Router
pub mod Tenant
pub mod Timers
