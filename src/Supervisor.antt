-- ===== src/Supervisor.antt =====
-- internal/supervisor: the process that spawns, watches and rolls back the worker.
pub mod Backoff
pub mod HealthGate
pub mod ExitCode
pub mod Symlinks
pub mod State
pub mod Rollback
pub mod Session
pub mod Loop
