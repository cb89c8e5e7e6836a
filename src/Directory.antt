-- ===== src/Directory.antt =====
-- `Defs` is the code, `Names` its C strings; `View` is the map from names to sectors that a
-- directory stands for, `Search`, `Add` and `Remove` prove the operations against it.
pub mod Names
mod Defs
pub mod View
pub mod Search
pub mod Update
mod Tests
unfoldable pub use Defs.*
