-- ===== src/Gazetteer.antt =====
-- The gazetteer, internal/application/gazetteer and its part of internal/domain.
pub mod Types
pub mod Salience
pub mod Service
pub mod Compass
pub mod Places
pub mod Bearing
pub mod Manifests
mod Tests
pub mod Samples
mod Requests
mod Files
