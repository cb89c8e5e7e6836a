-- ===== src/Cpu/LoadStore.antt =====
-- The loads and stores of Machine::OneInstruction (code/machine/mipssim.cc).
use os_td_minf.Prelude.{
  ℕ, ◌+◌, ◌-◌, ◌*◌, ◌/◌, ◌%◌, ◌^◌, ◌==◌, Bool, true, false, not, ◌&&◌, Option, none, some, leb,
  if◌then◌else◌, ◌>>=◌,
}
use os_td_minf.Machine.Reg
use os_td_minf.Machine.{Machine, ExceptionType, address_error_exception, reg}
use os_td_minf.Machine.{raise_exception, read_mem, write_mem}
use os_td_minf.Cpu.Word.{add32, shift_left}
use os_td_minf.Cpu.Decode.{Instruction}
use os_td_minf.Cpu.Alu.{rs_of, rt_of}
use os_td_minf.Cpu.Outcome.{Outcome, continues, returns}

-- `registers[instr->rs] + instr->extra`
abbrev pub target : Machine → Instruction → ℕ
target m i = add32 (rs_of m i) i.extra

-- `tmp & ~0x3`
abbrev pub word_of : ℕ → ℕ
word_of a = a / 4 * 4

-- `if ((value & 0x80) && …) value |= 0xffffff00; else value &= 0xff;`
unfoldable pub extend_byte : Bool → ℕ → ℕ
extend_byte sign value =
    if leb 128 (value % 256) && sign then value % 256 + (2 ^ 32 - 256) else value % 256

unfoldable pub extend_half : Bool → ℕ → ℕ
extend_half sign value =
    if leb 0x8000 (value % 0x10000) && sign
    then value % 0x10000 + (2 ^ 32 - 0x10000)
    else value % 0x10000

-- What a delayed load to the register would leave in it.
abbrev pub pending : Machine → ℕ → ℕ
pending m r = if reg m Reg.load == r then reg m Reg.load_value else reg m r

-- `(old & mask) | (value >> 8 * k)`, with the mask of the upper k bytes
unfoldable pub merge_right : ℕ → ℕ → ℕ → ℕ
merge_right k old value =
    if k == 0
    then value
    else if k == 1
    then old / 2 ^ 24 * 2 ^ 24 + value / 2 ^ 8
    else if k == 2
    then old / 2 ^ 16 * 2 ^ 16 + value / 2 ^ 16
    else old / 2 ^ 8 * 2 ^ 8 + value / 2 ^ 24

unfoldable pub merge_left : ℕ → ℕ → ℕ → ℕ
merge_left k old value =
    if k == 0
    then old % 2 ^ 8 + shift_left value 8
    else if k == 1
    then old % 2 ^ 16 + shift_left value 16
    else if k == 2
    then old % 2 ^ 24 + shift_left value 24
    else value

unfoldable pub store_right : ℕ → ℕ → ℕ → ℕ
store_right k register value =
    if k == 0
    then register
    else if k == 1
    then value % 2 ^ 8 + shift_left register 8
    else if k == 2
    then value % 2 ^ 16 + shift_left register 16
    else value % 2 ^ 24 + shift_left register 24

unfoldable pub store_left : ℕ → ℕ → ℕ → ℕ
store_left k register value =
    if k == 0
    then value / 2 ^ 8 * 2 ^ 8 + register / 2 ^ 24
    else if k == 1
    then value / 2 ^ 16 * 2 ^ 16 + register / 2 ^ 16
    else if k == 2
    then value / 2 ^ 24 * 2 ^ 24 + register / 2 ^ 8
    else register

module _ (exception_handler : ExceptionType → Machine → Option Machine) where
  -- `RaiseException(which, badVAddr); return;`
  abbrev pub traps : ExceptionType → ℕ → Machine → Option Outcome
  traps which bad_vaddr m =
      raise_exception exception_handler which bad_vaddr m >>= λ m'. some (returns m')

  -- `if (!ReadMem(…)) return; …`
  abbrev pub loaded : (ℕ → Machine → Option Outcome) → Option ℕ × Machine → Option Outcome
  loaded rest (none, m) = some (returns m)
  loaded rest (some value, m) = rest value m

  -- `if (!WriteMem(…)) return; break;`
  abbrev pub stored : ℕ → Bool × Machine → Option Outcome
  stored pc_after (false, m) = some (returns m)
  stored pc_after (true, m) = some (continues m pc_after 0 0)

  unfoldable pub load_byte : Bool → Machine → Instruction → ℕ → Option Outcome
  load_byte sign m i pc_after =
      read_mem exception_handler m (target m i) 1
      >>= loaded λ value m'. some (continues m' pc_after i.rt (extend_byte sign value))

  unfoldable pub load_half : Bool → Machine → Instruction → ℕ → Option Outcome
  load_half sign m i pc_after =
      let rest =
        read_mem exception_handler m (target m i) 2
        >>= loaded λ value m'. some (continues m' pc_after i.rt (extend_half sign value)) in
      if not (target m i % 2 == 0) then traps address_error_exception (target m i) m else rest

  unfoldable pub lw : Machine → Instruction → ℕ → Option Outcome
  lw m i pc_after =
      let rest =
        read_mem exception_handler m (target m i) 4
        >>= loaded λ value m'. some (continues m' pc_after i.rt value) in
      if not (target m i % 4 == 0) then traps address_error_exception (target m i) m else rest

  unfoldable pub lwr : Machine → Instruction → ℕ → Option Outcome
  lwr m i pc_after =
      read_mem exception_handler m (word_of (target m i)) 4
      >>= loaded λ value m'.
        some (continues m' pc_after i.rt (merge_right (target m i % 4) (pending m' i.rt) value))

  unfoldable pub lwl : Machine → Instruction → ℕ → Option Outcome
  lwl m i pc_after =
      read_mem exception_handler m (word_of (target m i)) 4
      >>= loaded λ value m'.
        some (continues m' pc_after i.rt (merge_left (target m i % 4) (pending m' i.rt) value))

  -- SB, SH and SW, by the size
  unfoldable pub store_sized : ℕ → Machine → Instruction → ℕ → Option Outcome
  store_sized size m i pc_after =
      write_mem exception_handler m (target m i) size (rt_of m i) >>= stored pc_after

  unfoldable pub swr : Machine → Instruction → ℕ → Option Outcome
  swr m i pc_after =
      read_mem exception_handler m (word_of (target m i)) 4
      >>= loaded λ value m'.
        write_mem exception_handler m' (word_of (target m i)) 4
          (store_right (target m i % 4) (rt_of m' i) value)
        >>= stored pc_after

  unfoldable pub swl : Machine → Instruction → ℕ → Option Outcome
  swl m i pc_after =
      read_mem exception_handler m (word_of (target m i)) 4
      >>= loaded λ value m'.
        write_mem exception_handler m' (word_of (target m i)) 4
          (store_left (target m i % 4) (rt_of m' i) value)
        >>= stored pc_after
