-- ===== src/Machine/Memory.antt =====
-- Machine::ReadMem and Machine::WriteMem of code/machine/translate.cc on a little-endian host, where
-- the conversions WordToHost, ShortToHost, WordToMachine and ShortToMachine change nothing and
-- `char` is signed. Machine::RaiseException of code/machine/machine.cc.
use os_td_minf.Prelude.{
  ℕ, ◌+◌, ◌-◌, ◌*◌, ◌/◌, ◌%◌, ◌^◌, Bool, true, false, Option, none, some, ltb, ◌==◌, if◌then◌else◌,
  ◌>>=◌,
}
use os_td_minf.Machine.Reg
use os_td_minf.Machine.Defs.{Machine, ExceptionType, update, set_reg, delayed_load}
use os_td_minf.Machine.Translation.{Translated, raised, physical, translate}

-- `char` to `int`
abbrev pub sign_extend_byte : ℕ → ℕ
sign_extend_byte b = if ltb b 128 then b else b + (2 ^ 32 - 256)

abbrev pub byte_at : Machine → ℕ → ℕ
byte_at m a = m.main_memory a

abbrev pub put_byte : Machine → ℕ → ℕ → Machine
put_byte m a v = record m { main_memory = update m.main_memory a v }

-- The switch of ReadMem: `none` is its default case, an ASSERT that fails.
unfoldable pub fetch : Machine → ℕ → ℕ → Option ℕ
fetch m a size =
    if size == 1
    then some (sign_extend_byte (byte_at m a))
    else if size == 2
    then some (byte_at m a + 256 * byte_at m (a + 1))
    else if size == 4
    then some (
        byte_at m a
        + 256 * byte_at m (a + 1)
        + 65536 * byte_at m (a + 2)
        + 16777216 * byte_at m (a + 3))
    else none

-- The switch of WriteMem.
unfoldable pub store : Machine → ℕ → ℕ → ℕ → Option Machine
store m a size value =
    if size == 1
    then some (put_byte m a (value % 256))
    else if size == 2
    then some (put_byte (put_byte m a (value % 256)) (a + 1) (value / 256 % 256))
    else if size == 4
    then some (
        put_byte
          (put_byte (put_byte (put_byte m a (value % 256)) (a + 1) (value / 256 % 256)) (a + 2)
            (value / 65536 % 256))
          (a + 3) (value / 16777216 % 256))
    else none

-- The kernel's ExceptionHandler, run on the machine. `none` means that it does not return.
module _ (exception_handler : ExceptionType → Machine → Option Machine) where
  -- The machine status of interrupt.cc is not part of this state.
  unfoldable pub raise_exception : ExceptionType → ℕ → Machine → Option Machine
  raise_exception which bad_vaddr m = do
    m' ← delayed_load (set_reg m Reg.bad_vaddr bad_vaddr) 0 0
    exception_handler which m'

  abbrev pub finish_read : ℕ → ℕ → Translated × Machine → Option (Option ℕ × Machine)
  finish_read addr size (raised e, m) = raise_exception e addr m >>= λ m'. some (none, m')
  finish_read addr size (physical a, m) = fetch m a size >>= λ v. some (some v, m)

  abbrev pub finish_write : ℕ → ℕ → ℕ → Translated × Machine → Option (Bool × Machine)
  finish_write addr size value (raised e, m) = raise_exception e addr m >>= λ m'. some (false, m')
  finish_write addr size value (physical a, m) = store m a size value >>= λ m'. some (true, m')

  -- The value read, or `none` after an exception, with the machine after it.
  unfoldable pub read_mem : Machine → ℕ → ℕ → Option (Option ℕ × Machine)
  read_mem m addr size = translate m addr size false >>= finish_read addr size

  -- Whether the write was done, with the machine after it.
  unfoldable pub write_mem : Machine → ℕ → ℕ → ℕ → Option (Bool × Machine)
  write_mem m addr size value = translate m addr size true >>= finish_write addr size value
