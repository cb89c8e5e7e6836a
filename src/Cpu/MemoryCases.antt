-- ===== src/Cpu/MemoryCases.antt =====
-- The loads and stores of code/machine/mipssim.cc keep the machine sound, or trap.
use os_td_minf.Prelude.{
  ℕ, ◌%◌, ◌^◌, ◌<◌, ◌≡◌, refl, ap, ◌∙◌, inl, inr, Bool, Option, some, arith, ◌==◌, Bool-cases,
  ◌>>=◌,
}
use os_td_minf.Machine.Reg
use os_td_minf.Machine.{Machine, ExceptionType, address_error_exception, read_mem, write_mem}
use os_td_minf.Machine.Bounds.{IsAccess, byte, half, whole}
use os_td_minf.Cpu.Outcome.{continues}
use os_td_minf.Cpu.Opcodes.{Op}
use os_td_minf.Cpu.Decode.{Instruction}
use os_td_minf.Cpu.Fields.{IsInstruction}
use os_td_minf.Cpu.Alu.{rt_of}
use os_td_minf.Cpu.LoadStore.{
  target, word_of, extend_byte, extend_half, pending, merge_right, merge_left, store_right,
  store_left, traps, loaded, stored, load_byte, load_half, lw, lwr, lwl, store_sized, swr, swl,
}
use os_td_minf.Cpu.Sound.{IsSound, Stopped-same, raise_exception-Stopped, after_handler}
use os_td_minf.Cpu.Access.{
  Reads, interrupted, got, read_mem-Reads, Writes, stopped, wrote, write_mem-Writes,
}
use os_td_minf.Cpu.Outcomes.{Fares, finished, trapped}

extend_byte-lt : (sign : Bool) (v : ℕ) → extend_byte sign v < 2 ^ 32
unfolding extend_byte
extend_byte-lt sign v = ground arith

extend_half-lt : (sign : Bool) (v : ℕ) → extend_half sign v < 2 ^ 32
unfolding extend_half
extend_half-lt sign v = ground arith

merge_right-lt : (k old v : ℕ) → old < 2 ^ 32 → v < 2 ^ 32 → merge_right k old v < 2 ^ 32
unfolding merge_right
merge_right-lt k old v h l = ground arith

merge_left-lt : (k old v : ℕ) → old < 2 ^ 32 → v < 2 ^ 32 → merge_left k old v < 2 ^ 32
unfolding merge_left
merge_left-lt k old v h l = ground arith

pending-lt : (m : Machine) (r : ℕ) → IsSound m → pending m r < 2 ^ 32
pending-lt m r sound = ground (arith, sound.words Reg.load_value, sound.words r)

module _ (handler : ExceptionType → Machine → Option Machine) (m : Machine) (i : Instruction)
    (o : Op) (sound : IsSound m) (pc_after : ℕ) (pc_bound : pc_after < 2 ^ 32) where
  pub traps-Fares :
      (e : ExceptionType) (bad : ℕ) → bad < 2 ^ 32 → Fares handler m i o (traps handler e bad m)
  traps-Fares e bad small =
      let (k, at, trap) = raise_exception-Stopped handler e bad m small sound in
      trapped e k trap (rw at refl)

  -- A load whose value is a word.
  load_Fares :
      (fields : IsInstruction i) (a size : ℕ) (f : ℕ → Machine → ℕ)
      → a < 2 ^ 32
      → IsAccess size
      → ((v : ℕ) (m' : Machine) → v < 2 ^ 32 → IsSound m' → f v m' < 2 ^ 32)
      → Fares handler m i o (
          read_mem handler m a size
          >>= loaded handler λ v m'. some (continues m' pc_after i.rt (f v m')))
  load_Fares fields a size f small access value_small =
      go (read_mem-Reads handler m a size small access sound)
    where
      go :
          Reads handler m (read_mem handler m a size)
          → Fares handler m i o (
              read_mem handler m a size
              >>= loaded handler λ v m'. some (continues m' pc_after i.rt (f v m')))
      go (interrupted e k trap q) = trapped e k trap (rw q (after_handler (handler e k) _ _))
      go (got v m' q v_small sound' same) = finished m' pc_after i.rt (f v m') (rw q refl) (record {
        sound = sound';
        pc_kept = ap (λ r. r Reg.pc) same;
        next_pc_kept = ap (λ r. r Reg.next_pc) same;
        pc_after_bound = pc_bound;
        load_bound = fields.rt_bound;
        value_bound = value_small v m' v_small sound';
      })

  pub load_byte-Fares :
      (sign : Bool) → IsInstruction i → Fares handler m i o (load_byte handler sign m i pc_after)
  unfolding load_byte
  load_byte-Fares sign fields =
      load_Fares fields (target m i) 1 (λ v m'. extend_byte sign v) (omega arith) (byte refl)
        λ v m' h s. extend_byte-lt sign v

  pub load_half-Fares :
      (sign : Bool) → IsInstruction i → Fares handler m i o (load_half handler sign m i pc_after)
  unfolding load_half
  load_half-Fares sign fields = elim (Bool-cases (target m i % 2 == 0)) [
    | inl e ↦ simp e (
        load_Fares fields (target m i) 2 (λ v m'. extend_half sign v) (omega arith) (half refl)
          λ v m' h s. extend_half-lt sign v)
    | inr e ↦ simp e (traps-Fares address_error_exception (target m i) (omega arith))
  ]

  pub lw-Fares : IsInstruction i → Fares handler m i o (lw handler m i pc_after)
  unfolding lw
  lw-Fares fields = elim (Bool-cases (target m i % 4 == 0)) [
    | inl e ↦
        simp e
          (load_Fares fields (target m i) 4 (λ v m'. v) (omega arith) (whole refl) λ v m' h s. h)
    | inr e ↦ simp e (traps-Fares address_error_exception (target m i) (omega arith))
  ]

  pub lwr-Fares : IsInstruction i → Fares handler m i o (lwr handler m i pc_after)
  unfolding lwr
  lwr-Fares fields =
      load_Fares fields (word_of (target m i)) 4
        (λ v m'. merge_right (target m i % 4) (pending m' i.rt) v) (omega arith) (whole refl)
        λ v m' h s. merge_right-lt (target m i % 4) (pending m' i.rt) v (pending-lt m' i.rt s) h

  pub lwl-Fares : IsInstruction i → Fares handler m i o (lwl handler m i pc_after)
  unfolding lwl
  lwl-Fares fields =
      load_Fares fields (word_of (target m i)) 4
        (λ v m'. merge_left (target m i % 4) (pending m' i.rt) v) (omega arith) (whole refl)
        λ v m' h s. merge_left-lt (target m i % 4) (pending m' i.rt) v (pending-lt m' i.rt s) h

  -- A store that follows a machine with the same registers.
  store_Fares :
      (m₁ : Machine)
      → IsSound m₁
      → m₁.registers ≡ m.registers
      → (a size v : ℕ) → a < 2 ^ 32
      → IsAccess size
      → Fares handler m i o (write_mem handler m₁ a size v >>= stored handler pc_after)
  store_Fares m₁ sound₁ same a size v small access =
      go (write_mem-Writes handler m₁ a size small access sound₁ v)
    where
      go :
          Writes handler m₁ (write_mem handler m₁ a size v)
          → Fares handler m i o (write_mem handler m₁ a size v >>= stored handler pc_after)
      go (stopped e k trap q) =
          trapped e k (Stopped-same m m₁ k same trap) (rw q (after_handler (handler e k) _ _))
      go (wrote m' q sound' same') = finished m' pc_after 0 0 (rw q refl) (record {
        sound = sound';
        pc_kept = ap (λ r. r Reg.pc) (same' ∙ same);
        next_pc_kept = ap (λ r. r Reg.next_pc) (same' ∙ same);
        pc_after_bound = pc_bound;
        load_bound = omega arith;
        value_bound = omega arith;
      })

  pub store_sized-Fares :
      (size : ℕ) → IsAccess size → Fares handler m i o (store_sized handler size m i pc_after)
  unfolding store_sized
  store_sized-Fares size access =
      store_Fares m sound refl (target m i) size (rt_of m i) (omega arith) access

  -- A word is read, changed and written back.
  modify_Fares :
      (a : ℕ) (f : ℕ → Machine → ℕ)
      → a < 2 ^ 32
      → Fares handler m i o (
          read_mem handler m a 4
          >>= loaded handler λ v m'. write_mem handler m' a 4 (f v m') >>= stored handler pc_after)
  modify_Fares a f small = go (read_mem-Reads handler m a 4 small (whole refl) sound)
    where
      go :
          Reads handler m (read_mem handler m a 4)
          → Fares handler m i o (
              read_mem handler m a 4
              >>= loaded handler
                  λ v m'. write_mem handler m' a 4 (f v m') >>= stored handler pc_after)
      go (interrupted e k trap q) = trapped e k trap (rw q (after_handler (handler e k) _ _))
      go (got v m' q v_small sound' same) =
          rw q (store_Fares m' sound' same a 4 (f v m') small (whole refl))

  pub swr-Fares : Fares handler m i o (swr handler m i pc_after)
  unfolding swr
  swr-Fares =
      modify_Fares (word_of (target m i)) (λ v m'. store_right (target m i % 4) (rt_of m' i) v)
        (omega arith)

  pub swl-Fares : Fares handler m i o (swl handler m i pc_after)
  unfolding swl
  swl-Fares =
      modify_Fares (word_of (target m i)) (λ v m'. store_left (target m i % 4) (rt_of m' i) v)
        (omega arith)
