-- ===== src/UserThread/Defs.antt =====
-- code/userprog/userthread.cc. The lock makes ThreadCreate and ThreadExit one step each. A thread is
-- its address, not 0; `new` gives the address of a new one as an argument.
use os_td_minf.Prelude.{
  ℕ, zero, suc, ◌+◌, ◌-◌, ◌*◌, ◌%◌, ◌^◌, Bool, true, false, Option, none, some, List, ℤ, pos,
  negsuc, ltb, ◌==◌, if◌then◌else◌, ◌>>=◌, get_elem?, set,
}
use os_td_minf.Machine.Reg
use os_td_minf.Machine.{Machine, page_size, num_total_regs, read_register, write_register}
use os_td_minf.Bitmap.{BitMap, find, clear}
use os_td_minf.AddrSpace.Defs.{zero_registers}

abbrev pub user_thread_stack_size : ℕ
user_thread_stack_size = 256

abbrev pub stack_padding : ℕ
stack_padding = 16

abbrev pub max_threads : ℕ
max_threads = 10

pub record UserThreads : Type 0 where
  pub g_threads : List ℕ
  pub stack_map : BitMap
  pub g_threads_idx : ℤ

-- x + 1 and x - 1
abbrev pub increment : ℤ → ℤ
increment (pos n) = pos (suc n)
increment (negsuc zero) = pos 0
increment (negsuc (suc n)) = negsuc n

abbrev pub decrement : ℤ → ℤ
decrement (pos zero) = negsuc 0
decrement (pos (suc n)) = pos n
decrement (negsuc n) = negsuc (suc n)

abbrev pub is_negative : ℤ → Bool
is_negative (pos n) = false
is_negative (negsuc n) = true

-- for (i = i; k rounds; i++)
unfoldable pub stack_id_loop : ℕ → ℕ → List ℕ → ℕ → Option ℤ
stack_id_loop zero i g_threads thread_id = some (negsuc 0)
stack_id_loop (suc k) i g_threads thread_id = do
  t ← get_elem? g_threads i
  let rest = stack_id_loop k (i + 1) g_threads thread_id
  if t == thread_id then some (pos i) else rest

unfoldable pub get_stack_id_from_thread : List ℕ → ℕ → Option ℤ
get_stack_id_from_thread g_threads thread_id = stack_id_loop max_threads 0 g_threads thread_id

-- g_threads[i] = t, a fault outside the array
abbrev pub set_thread : List ℕ → ℕ → ℕ → Option (List ℕ)
set_thread g i t = if ltb i max_threads then some (set g i t) else none

-- With a free slot, the thread and its slot, to be started; or -1.
abbrev pub enter : ℕ → UserThreads → BitMap × ℤ → Option (Option ℕ × UserThreads)
enter new_thread u (stack_map, negsuc n) = some (none, record u { stack_map = stack_map })
enter new_thread u (stack_map, pos i) = do
  g ← set_thread u.g_threads i new_thread
  some (
    some i,
    record { g_threads = g; stack_map = stack_map; g_threads_idx = increment u.g_threads_idx },
  )

unfoldable pub do_thread_create : ℕ → UserThreads → Option (Option ℕ × UserThreads)
do_thread_create new_thread u = do found ← find u.stack_map; enter new_thread u found

abbrev pub leave : ℤ → UserThreads → Option UserThreads
leave (negsuc n) u = some u
leave (pos i) u = do
  g ← set_thread u.g_threads i 0
  stack_map ← clear u.stack_map (pos i)
  some (record u { g_threads = g; stack_map = stack_map })

-- Whether Nachos halts; else the thread finishes. The source tests the counter after it has released the
-- lock; an exit of another thread in between is left out.
unfoldable pub do_thread_exit : ℕ → UserThreads → Option (Bool × UserThreads)
do_thread_exit current_thread u = do
  i ← get_stack_id_from_thread u.g_threads current_thread
  u' ← leave i u
  let g_threads_idx = decrement u'.g_threads_idx
  some (is_negative g_threads_idx, record u' { g_threads_idx = g_threads_idx })

-- An unsigned difference.
unfoldable pub stack_address : ℕ → ℕ → ℕ
stack_address num_pages idx =
    (num_pages * page_size
      + 2 ^ 32
      - stack_padding
      - (idx + 1) * user_thread_stack_size
      - stack_padding)
    % 2 ^ 32

-- StartUserThread up to Machine::Run.
unfoldable pub start_user_thread : ℕ → ℕ → ℕ → ℕ → ℕ → Machine → Option Machine
start_user_thread f arg f_exit idx num_pages m = do
  m₁ ← zero_registers num_total_regs 0 m
  pc ← read_register m₁ Reg.pc
  m₂ ← write_register m₁ Reg.prev_pc pc
  m₃ ← write_register m₂ Reg.pc f
  m₄ ← write_register m₃ Reg.next_pc ((f + 4) % 2 ^ 32)
  m₅ ← write_register m₄ Reg.ret_addr f_exit
  m₆ ← write_register m₅ Reg.stack (stack_address num_pages idx)
  write_register m₆ 4 arg
