-- ===== src/Common.antt =====
-- The names that the other modules share: the libraries', passed on, and those of the children.
pub mod Base
mod Tests
mod Lists
pub mod Bytes
pub mod Maps
pub mod Float
pub mod Keys
pub mod Clock
pub mod Int
pub mod Sort
pub mod Decimal
pub use Base.*
pub use Tests.*
pub use Lists.*
unfoldable pub use Bytes.*
