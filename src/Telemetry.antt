-- ===== src/Telemetry.antt =====
-- internal/adapters/telemetry: the trace ring buffer behind the MCP diagnostics.
pub mod Types
pub mod Fold
pub mod Capture
pub mod Ring
pub mod Query
mod Tests
