-- ===== src/Geopackage.antt =====
-- The GeoPackage adapter: internal/adapters/geopackage.
pub mod Dedup
mod Tests
