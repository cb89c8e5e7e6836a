-- ===== src/LinkedList.antt =====
-- The singly linked list of code/threads/list.cc. `Defs` holds the code on an explicit heap; `Chain`
-- says which sequence a list stands for, and `Ends`, `Walk`, `Sorted`, `Destroy` prove.
pub mod Defs
pub mod Chain
pub mod Ends
pub mod Walk
pub mod Sorted
pub mod Destroy
mod Tests
