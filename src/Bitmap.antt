-- ===== src/Bitmap.antt =====
-- code/userprog/bitmap.cc: an array of bits in 32-bit words.
-- `Defs` is the code; clients use it through the view `Words.is_set` and the laws.
mod Defs
pub mod Words
pub mod Search
mod Tests
unfoldable pub use Defs.*
