-- ===== src/OpenFile.antt =====
-- Open files: code/filesys/openfile.cc.
pub mod Defs
pub mod Sectors
pub mod Reading
pub mod Storing
pub mod Filling
pub mod Writing
pub mod Allocated
pub mod Tests
