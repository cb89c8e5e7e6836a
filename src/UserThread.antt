-- ===== src/UserThread.antt =====
-- Threads of user programs: code/userprog/userthread.cc.
pub mod Defs
pub mod Slots
pub mod Exit
pub mod Stacks
pub mod Tests
