-- ===== src/Updater.antt =====
-- internal/updater: the signed manifest of a release channel.
pub mod Manifest
pub mod Client
mod Examples
