-- ===== src/SelfUpdate.antt =====
-- internal/selfupdate: installing a new version of the worker.
pub mod Marker
pub mod Rotate
pub mod Download
pub mod Install
mod Examples
