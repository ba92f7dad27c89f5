-- ===== src/Examples.antt =====
-- The theorems at concrete inputs.
mod Configs
mod Dependencies
mod Scans
mod Listings
mod Manifests
mod Outputs
mod Ownership
mod Packages
mod Patches
mod Protos
mod Runs
mod Tools
mod Traces
