-- ===== src/Kernel.antt =====
-- Threads, the scheduler and semaphores: code/threads/scheduler.cc, thread.cc and synch.cc.
pub mod Defs
pub mod Threads
pub mod Queues
pub mod Moves
pub mod Valid
pub mod Waiting
pub mod Waking
pub mod Switching
pub mod Calls
pub mod Safety
pub mod Runs
pub mod Locks
pub mod Turns
pub mod Guarantees
pub mod Tests
