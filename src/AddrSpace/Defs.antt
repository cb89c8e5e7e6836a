-- ===== src/AddrSpace/Defs.antt =====
-- code/userprog/addrspace.cc, on a little-endian host, where SwapHeader is not called. An `int` is its
-- 32-bit pattern. What `new` and the stack leave in memory is an argument, `unset`.
use os_td_minf.Prelude.{
  ℕ, zero, suc, ◌+◌, ◌-◌, ◌*◌, ◌%◌, ◌^◌, min, Bool, true, false, ◌&&◌, Option, none, some, List, [],
  ◌∷◌, ltb, leb, ◌==◌, if◌then◌else◌, ◌>>=◌, ◌>>◌, assert,
}
use os_td_minf.Machine.Reg
use os_td_minf.Machine.{
  Machine, TranslationEntry, page_size, num_phys_pages, memory_size, write_register, read_register,
  num_total_regs,
}
use os_td_minf.Bitmap.{div_round_up}

-- A UNIX file of the host: as many bytes as it is long.
pub record Executable : Type 0 where
  pub size : ℕ
  pub bytes : ℕ → ℕ

pub record Segment : Type 0 where
  pub virtual_addr : ℕ
  pub in_file_addr : ℕ
  pub size : ℕ

pub record NoffHeader : Type 0 where
  pub noff_magic : ℕ
  pub code : Segment
  pub init_data : Segment
  pub uninit_data : Segment

pub record AddrSpace : Type 0 where
  pub page_table : List TranslationEntry
  pub num_pages : ℕ

-- The constructor throws bad_alloc, or gives the space and the machine with the program in memory.
pub data Created : Type 0 where
  bad_alloc : Created
  space : AddrSpace → Machine → Created

abbrev pub noff_magic_number : ℕ
noff_magic_number = 12246957

abbrev pub user_stacks_area_size : ℕ
user_stacks_area_size = 4 * 1024

abbrev pub user_start_address : ℕ
user_start_address = 128

-- Byte j of the header after ReadAt.
abbrev pub header_byte : (ℕ → ℕ) → Executable → ℕ → ℕ
header_byte unset executable j = if ltb j executable.size then executable.bytes j else unset j

abbrev pub header_word : (ℕ → ℕ) → Executable → ℕ → ℕ
header_word unset executable k =
    header_byte unset executable (4 * k)
    + 256 * header_byte unset executable (4 * k + 1)
    + 65536 * header_byte unset executable (4 * k + 2)
    + 16777216 * header_byte unset executable (4 * k + 3)

abbrev pub header_segment : (ℕ → ℕ) → Executable → ℕ → Segment
header_segment unset executable k = record {
  virtual_addr = header_word unset executable k;
  in_file_addr = header_word unset executable (k + 1);
  size = header_word unset executable (k + 2);
}

unfoldable pub read_header : (ℕ → ℕ) → Executable → NoffHeader
read_header unset executable = record {
  noff_magic = header_word unset executable 0;
  code = header_segment unset executable 1;
  init_data = header_segment unset executable 4;
  uninit_data = header_segment unset executable 7;
}

-- An `int` above 0.
abbrev pub is_positive : ℕ → Bool
is_positive x = ltb 0 x && ltb x (2 ^ 31)

-- ReadAt to mainMemory[virtualAddr]: a fault for a negative offset in the file, and outside the memory.
unfoldable pub load_segment : Executable → Segment → Machine → Option Machine
load_segment executable s m =
    let n = min s.size (executable.size - s.in_file_addr) in
    let loaded =
      assert (ltb s.in_file_addr (2 ^ 31))
      >> (assert (leb (s.virtual_addr + n) memory_size)
          >> some (record m {
            main_memory = λ j.
                if leb s.virtual_addr j && ltb j (s.virtual_addr + n)
                then executable.bytes (s.in_file_addr + (j - s.virtual_addr))
                else m.main_memory j;
          })) in
    if is_positive s.size then loaded else some m

-- Frame i for page i; virtualPage is not set.
abbrev pub identity_entry : (ℕ → ℕ) → ℕ → TranslationEntry
identity_entry unset i = record {
  virtual_page = unset i;
  physical_page = i;
  valid = true;
  read_only = false;
  used = false;
  dirty = false;
}

-- for (i = i; k rounds; i++)
abbrev pub identity_table : (ℕ → ℕ) → ℕ → ℕ → List TranslationEntry
identity_table unset zero i = []
identity_table unset (suc k) i = identity_entry unset i ∷ identity_table unset k (i + 1)

-- The sum of the sizes, an `int`, is kept as an unsigned number.
unfoldable pub pages_of : NoffHeader → ℕ
pages_of h =
    div_round_up
      ((h.code.size + h.init_data.size + h.uninit_data.size + user_stacks_area_size) % 2 ^ 32)
      page_size

-- pageTable[0].valid = FALSE, a fault on an empty table
abbrev pub without_page_0 : List TranslationEntry → Option (List TranslationEntry)
without_page_0 [] = none
without_page_0 (e ∷ es) = some (record e { valid = false } ∷ es)

unfoldable pub load_program : (ℕ → ℕ) → Executable → NoffHeader → Machine → Option Created
load_program unset executable h m = do
  m₁ ← load_segment executable h.code m
  m₂ ← load_segment executable h.init_data m₁
  table ← without_page_0 (identity_table unset (pages_of h) 0)
  some (space (record { page_table = table; num_pages = pages_of h }) m₂)

unfoldable pub create : (ℕ → ℕ) → Executable → Machine → Option Created
create unset executable m = do
  let h = read_header unset executable
  assert (h.noff_magic == noff_magic_number)
  let loaded = load_program unset executable h m
  if ltb num_phys_pages (pages_of h) then some bad_alloc else loaded

-- for (i = i; k rounds; i++)
unfoldable pub zero_registers : ℕ → ℕ → Machine → Option Machine
zero_registers zero i m = some m
zero_registers (suc k) i m = do m' ← write_register m i 0; zero_registers k (i + 1) m'

unfoldable pub init_registers : AddrSpace → Machine → Option Machine
init_registers a m = do
  m₁ ← zero_registers num_total_regs 0 m
  m₂ ← write_register m₁ Reg.pc user_start_address
  pc ← read_register m₂ Reg.pc
  m₃ ← write_register m₂ Reg.next_pc ((pc + 4) % 2 ^ 32)
  write_register m₃ Reg.stack ((a.num_pages * page_size + 2 ^ 32 - 16) % 2 ^ 32)

unfoldable pub save_state : AddrSpace → Machine → Machine
save_state a m = m

unfoldable pub restore_state : AddrSpace → Machine → Machine
restore_state a m = record m { page_table = some a.page_table; page_table_size = a.num_pages }
