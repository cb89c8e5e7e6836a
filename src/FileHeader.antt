-- ===== src/FileHeader.antt =====
-- `Defs` is the code; `Blocks` speaks of lists of sectors, `Allocate` and `RoundTrip` and `Lookup` prove.
mod Defs
pub mod Blocks
pub mod Allocate
pub mod RoundTrip
pub mod Lookup
mod Tests
unfoldable pub use Defs.*
