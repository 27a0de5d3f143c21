-- ===== src/Proto.antt =====
-- The messages and enumerations of common/proto/slave-api.proto, which the build turns into
-- `slave_api`.
pub mod Enums
pub mod Status
pub mod Messages
pub use Enums.*
pub use Status.*
pub use Messages.*
