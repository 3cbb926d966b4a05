-- ===== src/Registry.antt =====
-- internal/application/registry.go: the registry of loaded sources.
pub mod Types
pub mod Load
pub mod Invariant
pub mod Sync
pub mod Loading
pub mod History
pub mod Outcome
pub mod Syncing
mod Tests
