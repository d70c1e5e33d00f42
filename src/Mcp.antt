-- ===== src/Mcp.antt =====
-- riftgate-mcp: what a tenant may call, and the trail that the decisions leave.
pub mod Capability
pub mod Allowlist
pub mod Audit
pub mod Broker
pub mod Hex
