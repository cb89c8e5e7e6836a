-- ===== src/AddrSpace/Registers.antt =====
-- The registers with which a user program starts.
use os_td_minf.Prelude.{
  ℕ, zero, suc, ◌+◌, ◌-◌, ◌*◌, ◌%◌, ◌^◌, ◌≤◌, ◌<◌, ◌≡◌, refl, sym, ◌≢◌, inl, inr, ◌&&◌, some, arith,
  ltb, leb, ◌==◌, if◌then◌else◌, lt→ltb, ==_ne, Bool-cases,
}
use os_td_minf.Machine.Reg
use os_td_minf.Machine.{
  Machine, page_size, num_total_regs, reg, set_reg, update, write_register, read_register,
}
use os_td_minf.Bitmap.{div_round_up}
use os_td_minf.AddrSpace.Defs.{
  Executable, AddrSpace, space, read_header, pages_of, create, zero_registers, init_registers,
  user_start_address, user_stacks_area_size,
}
use os_td_minf.AddrSpace.Identity.{create-Made}

write_register_lem :
    (m : Machine) (i v : ℕ) → i < num_total_regs → write_register m i v ≡ some (set_reg m i v)
unfolding write_register
write_register_lem m i v h = simp (lt→ltb i num_total_regs h) refl

zero_registers_lem :
    (k i : ℕ) (m : Machine)
    → i + k ≤ num_total_regs
    → (r : ℕ → ℕ) × (zero_registers k i m ≡ some (record m { registers = r }))
      × ((j : ℕ) → r j ≡ (if leb i j && ltb j (i + k) then 0 else reg m j))
unfolding zero_registers
zero_registers_lem zero i m h = (m.registers, refl, λ j. ground arith)
zero_registers_lem (suc k) i m h =
    let (r, done, is) = zero_registers_lem k (i + 1) (set_reg m i 0) (omega arith) in
    (
      r,
      rw (write_register_lem m i 0 (omega arith)) done,
      λ j. elim (Bool-cases (i == j)) [
        | inl same ↦
            let e : update m.registers i 0 j ≡ 0 = simp same refl in ground (arith, is j, e, same)
        | inr other ↦
            let e : update m.registers i 0 j ≡ m.registers j = simp other refl in
            ground (arith, is j, e, other)
      ],
    )

-- InitRegisters of an address space that the constructor made for a program whose sizes and the area
-- for stacks add up to less than 2 ^ 32: it passes the ASSERTs; the program starts at address 128 with
-- the next instruction at 132, its stack pointer is 16 bytes below the end of the space and not in
-- page 0, and every other register is 0.
pub init_registers_lem :
    (unset : ℕ → ℕ) (executable : Executable) (m₀ : Machine) (a : AddrSpace) (m₁ m : Machine)
    → create unset executable m₀ ≡ some (space a m₁)
    → (read_header unset executable).code.size
        + (read_header unset executable).init_data.size
        + (read_header unset executable).uninit_data.size
        + user_stacks_area_size
      < 2 ^ 32
    → (m' : Machine) × (init_registers a m ≡ some m')
      × (reg m' Reg.pc ≡ user_start_address)
      × (reg m' Reg.next_pc ≡ 132)
      × (reg m' Reg.stack + 16 ≡ a.num_pages * page_size)
      × (page_size ≤ reg m' Reg.stack)
      × ((j : ℕ) → j < num_total_regs → j ≢ Reg.pc → j ≢ Reg.next_pc → j ≢ Reg.stack → reg m' j ≡ 0)
unfolding init_registers pages_of div_round_up read_register write_register
init_registers_lem unset executable m₀ a m₁ m made small =
    let (identity, total) = create-Made unset executable m₀ a m₁ made in
    let (r, done, is) = zero_registers_lem num_total_regs 0 m (omega arith) in
    let top = (a.num_pages * page_size + 2 ^ 32 - 16) % 2 ^ 32 in
    let end : top + 16 ≡ a.num_pages * page_size = omega (arith, identity.fits, total, small) in
    let m' : Machine =
      set_reg (set_reg (set_reg (record m { registers = r }) Reg.pc 128) Reg.next_pc 132) Reg.stack
        top in
    (
      m',
      rw done refl,
      refl,
      refl,
      end,
      omega (arith, end, total, small),
      λ j lt not_pc not_next not_stack.
          simp
            (
              ==_ne Reg.stack j (λ e. not_stack (sym e)),
              ==_ne Reg.next_pc j (λ e. not_next (sym e)),
              ==_ne Reg.pc j (λ e. not_pc (sym e)),
            )
            (ground (arith, is j, lt)),
    )
