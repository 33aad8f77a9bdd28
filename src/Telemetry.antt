-- ===== src/Telemetry.antt =====
-- Local telemetry of the agent: apps/desktop-agent/src/telemetry. The backpressure controller and the
-- spool; `Retention`, `Restart` and `Counters` prove what they keep.
pub mod Backpressure
pub mod Spool
pub mod Retention
pub mod Counters
pub mod Restart
