-- ===== src/Machine/Defs.antt =====
-- The state of code/machine/machine.h and translate.h, and the registers' operations of
-- code/machine/machine.cc. An `int` register is its 32-bit pattern, a number below 2 ^ 32.
use os_td_minf.Machine.Reg
use os_td_minf.Prelude.{ℕ, ◌*◌, Bool, Option, some, List, ltb, ◌==◌, if◌then◌else◌, ◌>>◌, assert}

abbrev pub page_size : ℕ
page_size = 128

abbrev pub num_phys_pages : ℕ
num_phys_pages = 4096

abbrev pub memory_size : ℕ
memory_size = num_phys_pages * page_size

abbrev pub tlb_size : ℕ
tlb_size = 4

pub data ExceptionType : Type 0 where
  syscall_exception page_fault_exception read_only_exception bus_error_exception : ExceptionType
  address_error_exception overflow_exception illegal_instr_exception : ExceptionType

-- The fields `valid`, `readOnly`, `use` and `dirty` of a page table or TLB entry.
pub record TranslationEntry : Type 0 where
  pub virtual_page : ℕ
  pub physical_page : ℕ
  pub valid : Bool
  pub read_only : Bool
  pub used : Bool
  pub dirty : Bool

abbrev pub num_total_regs : ℕ
num_total_regs = 40

-- `none` is the null pointer. A byte of the memory is a number below 256.
pub record Machine : Type 0 where
  pub registers : ℕ → ℕ
  pub main_memory : ℕ → ℕ
  pub tlb : Option (List TranslationEntry)
  pub page_table : Option (List TranslationEntry)
  pub page_table_size : ℕ

-- A function with one value replaced: an array after a write.
abbrev pub update {ℓ} : {A : Type ℓ} → (ℕ → A) → ℕ → A → ℕ → A
update f i v j = if i == j then v else f j

abbrev pub reg : Machine → ℕ → ℕ
reg m num = m.registers num

-- registers[num] = value, where `num` is in range
abbrev pub set_reg : Machine → ℕ → ℕ → Machine
set_reg m num value = record m { registers = update m.registers num value }

unfoldable pub read_register : Machine → ℕ → Option ℕ
read_register m num = do assert (ltb num num_total_regs); some (reg m num)

unfoldable pub write_register : Machine → ℕ → ℕ → Option Machine
write_register m num value = do assert (ltb num num_total_regs); some (set_reg m num value)

-- Machine::DelayedLoad of mipssim.cc. The first write goes to the register that the load register
-- names, and is a fault outside the array.
unfoldable pub delayed_load : Machine → ℕ → ℕ → Option Machine
delayed_load m next_reg next_value = do
  assert (ltb (reg m Reg.load) num_total_regs)
  let loaded = set_reg m (reg m Reg.load) (reg m Reg.load_value)
  let pending = set_reg (set_reg loaded Reg.load next_reg) Reg.load_value next_value
  some (set_reg pending 0 0)
