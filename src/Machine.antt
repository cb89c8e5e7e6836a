-- ===== src/Machine.antt =====
-- The simulated machine. `Defs` holds its state, `Translation` and `Memory` the code of
-- translate.cc; `Bounds`, `Tlb` and `ReadWrite` prove.
pub mod Reg
mod Defs
mod Translation
mod Memory
pub mod Bounds
pub mod Tlb
pub mod ReadWrite
mod Tests
unfoldable pub use Defs.*
unfoldable pub use Translation.*
unfoldable pub use Memory.*
