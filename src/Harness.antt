-- ===== src/Harness.antt =====
-- The harness that runs tasks in sandboxes: packages/computer/src/harness.
pub mod AuthState
pub mod Codex
pub mod RuntimeData
pub mod World
pub mod Heartbeat
pub mod Recovery
pub mod Start
pub mod Steps
pub mod Lookup
pub mod Probe
pub mod Sequence
pub mod Notify
