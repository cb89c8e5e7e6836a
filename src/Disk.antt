-- ===== src/Disk.antt =====
-- The disk and its synchronous interface: code/machine/disk.cc and code/filesys/synchdisk.cc.
pub mod Defs
pub mod Latency
pub mod Sectors
pub mod Tests
