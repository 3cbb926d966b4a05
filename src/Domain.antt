-- ===== src/Domain.antt =====
-- internal/domain: sources, coordinates, features and the queries over them.
pub mod Errors
pub mod Types
pub mod Coordinates
pub mod Paths
pub mod World
pub mod Stems
mod Tests
