-- ===== src/Release.antt =====
-- cmd/clawmast-release: the tool that packs a release and describes it.
pub mod Build
pub mod Describe
pub mod Matrix
pub mod Paths
pub mod Packing
pub mod Extracting
pub mod Listing
pub mod Installable
mod Examples
