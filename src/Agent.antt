-- ===== src/Agent.antt =====
-- internal/agent: the HTTP server of the worker, and the files that it keeps.
pub mod Channel
pub mod Access
pub mod Server
pub mod Settings
pub mod Blocking
pub mod Updates
pub mod Actions
pub mod Boot
mod Examples
