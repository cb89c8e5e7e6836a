-- ===== src/UserThread/Stacks.antt =====
-- Where the stacks of user threads are.
use os_td_minf.Prelude.{ℕ, ◌+◌, ◌-◌, ◌*◌, ◌≤◌, ◌<◌, arith}
use os_td_minf.Machine.{page_size, num_phys_pages}
use os_td_minf.UserThread.Defs.{max_threads, user_thread_stack_size, stack_address}

-- The stacks of user threads: below the main thread's stack, 256 bytes each and apart from each other,
-- and all of them in the area of 4096 bytes that the address space has for stacks.
pub stack_address_lem :
    (num_pages i j : ℕ)
    → 32 ≤ num_pages
    → num_pages ≤ num_phys_pages
    → i < j
    → j < max_threads
    → (stack_address num_pages j + user_thread_stack_size ≤ stack_address num_pages i)
      × (stack_address num_pages i + user_thread_stack_size + 16 ≤ num_pages * page_size - 16)
      × (num_pages * page_size - 4096 ≤ stack_address num_pages j - user_thread_stack_size)
unfolding stack_address
stack_address_lem num_pages i j few many lt low = (omega arith, omega arith, omega arith)
