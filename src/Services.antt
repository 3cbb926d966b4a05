-- ===== src/Services.antt =====
-- internal/application: the services over the registry.
pub mod Health
pub mod Trigger
pub mod Query
pub mod Batch
mod Tests
