-- ===== src/Http.antt =====
-- internal/adapters/http: what guards the API.
pub mod RateLimit
pub mod ClientIp
pub mod Batch
pub mod Cors
mod Tests
mod Requests
pub mod Query
mod Points
