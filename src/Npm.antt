-- ===== src/Npm.antt =====
-- The npm side of the Gazelle extension: gazelle/npm.go and gazelle/pnpm_lock.go.
pub mod Names
pub mod Lock
pub mod Importers
pub mod Edges
