-- ===== src/Raster.antt =====
-- Raster bundles: internal/adapters/raster.
pub mod Tileset
mod Tests
