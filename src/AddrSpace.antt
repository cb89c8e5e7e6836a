-- ===== src/AddrSpace.antt =====
-- Address spaces of user programs: code/userprog/addrspace.cc.
pub mod Defs
pub mod Identity
pub mod Addresses
pub mod Registers
pub mod Tests
