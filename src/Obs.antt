-- ===== src/Obs.antt =====
-- riftgate-obs: what the telemetry keeps.
pub mod Reservoir
