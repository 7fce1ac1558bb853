-- ===== src/Openclaw.antt =====
-- internal/openclaw: what the worker knows about the OpenClaw gateway, and how it repairs it.
pub mod Phase
pub mod ActionLog
pub mod Poller
pub mod Gateway
pub mod Probe
pub mod Cascade
pub mod Examples
pub mod Discover
pub mod Exec
