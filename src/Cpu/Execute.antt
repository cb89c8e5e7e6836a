-- ===== src/Cpu/Execute.antt =====
-- Machine::OneInstruction of code/machine/mipssim.cc. The debugging output is left out.
use os_td_minf.Prelude.{
  ℕ, ◌^◌, ◌-◌, ◌==◌, Bool, true, false, not, ◌&&◌, Option, none, some, if◌then◌else◌, ◌>>=◌, ◌>>◌,
  assert,
}
use os_td_minf.Machine.Reg
use os_td_minf.Machine.{
  Machine, ExceptionType, overflow_exception, syscall_exception, illegal_instr_exception, reg,
  set_reg, delayed_load, read_mem,
}
use os_td_minf.Cpu.Word.{add32, sub32, signs_differ, div_signed, mod_signed}
use os_td_minf.Cpu.Opcodes.{
  Op, op_add, op_addi, op_addiu, op_addu, op_and, op_andi, op_beq, op_bgez, op_bgezal, op_bgtz,
  op_blez, op_bltz, op_bltzal, op_bne, op_div, op_divu, op_j, op_jal, op_jalr, op_jr, op_lb, op_lbu,
  op_lh, op_lhu, op_lui, op_lw, op_lwl, op_lwr, op_mfhi, op_mflo, op_mthi, op_mtlo, op_mult,
  op_multu, op_nor, op_or, op_ori, op_rfe, op_sb, op_sh, op_sll, op_sllv, op_slt, op_slti, op_sltiu,
  op_sltu, op_sra, op_srav, op_srl, op_srlv, op_sub, op_subu, op_sw, op_swl, op_swr, op_xor,
  op_xori, op_syscall, op_unimp, op_res,
}
use os_td_minf.Cpu.Decode.{Instruction, decode}
use os_td_minf.Cpu.Outcome.{Outcome, continues, returns}
use os_td_minf.Cpu.Alu.{
  rs_of, rt_of, addiu, addu, and_reg, andi, divu, lui, mfhi, mflo, mthi, mtlo, multiply, nor,
  or_reg, ori, sll, sllv, slt, slti, sltiu, sltu, sra, srav, srl, srlv, subu, xor_reg, xori,
}
use os_td_minf.Cpu.Branch.{
  after_next, beq, bgez, bgezal, bgtz, blez, bltz, bltzal, bne, jump, jal, jr, jalr,
}
use os_td_minf.Cpu.LoadStore.{traps, load_byte, load_half, lw, lwr, lwl, store_sized, swr, swl}

-- The tests for overflow of ADD, ADDI and SUB.
abbrev pub add_overflows : ℕ → ℕ → Bool
add_overflows a b = not (signs_differ a b) && signs_differ a (add32 a b)

abbrev pub addi_overflows : ℕ → ℕ → Bool
addi_overflows a extra = not (signs_differ a extra) && signs_differ extra (add32 a extra)

abbrev pub sub_overflows : ℕ → ℕ → Bool
sub_overflows a b = signs_differ a b && signs_differ a (sub32 a b)

-- The one division of `int` by another number than 0 that C leaves undefined: it is a fault.
abbrev pub division_traps : ℕ → ℕ → Bool
division_traps a b = a == 2 ^ 31 && b == 2 ^ 32 - 1

module _ (exception_handler : ExceptionType → Machine → Option Machine) where
  -- `if (…) { RaiseException(OverflowException, 0); return; }`, and then the register is written.
  abbrev unless_overflow : Bool → Machine → Machine → ℕ → Option Outcome
  unless_overflow overflows m m' pc_after =
      if overflows
      then traps exception_handler overflow_exception 0 m
      else some (continues m' pc_after 0 0)

  unfoldable pub add : Machine → Instruction → ℕ → Option Outcome
  add m i =
      unless_overflow (add_overflows (rs_of m i) (rt_of m i)) m
        (set_reg m i.rd (add32 (rs_of m i) (rt_of m i)))

  unfoldable pub addi : Machine → Instruction → ℕ → Option Outcome
  addi m i =
      unless_overflow (addi_overflows (rs_of m i) i.extra) m
        (set_reg m i.rt (add32 (rs_of m i) i.extra))

  unfoldable pub sub : Machine → Instruction → ℕ → Option Outcome
  sub m i =
      unless_overflow (sub_overflows (rs_of m i) (rt_of m i)) m
        (set_reg m i.rd (sub32 (rs_of m i) (rt_of m i)))

unfoldable pub div_reg : Machine → Instruction → ℕ → Option Outcome
div_reg m i pc_after =
    let rs = rs_of m i in
    let rt = rt_of m i in
    if rt == 0
    then some (continues (set_reg (set_reg m Reg.lo 0) Reg.hi 0) pc_after 0 0)
    else assert (not (division_traps rs rt))
      >> some (
          continues (set_reg (set_reg m Reg.lo (div_signed rs rt)) Reg.hi (mod_signed rs rt))
            pc_after 0 0)

abbrev go_to : Machine → ℕ → Option Outcome
go_to m pc_after = some (continues m pc_after 0 0)

abbrev linked : Machine × ℕ → Option Outcome
linked (m, pc_after) = some (continues m pc_after 0 0)

-- `DelayedLoad(nextLoadReg, nextLoadValue)`, and the program counters
unfoldable pub advance : Outcome → Option Machine
advance (returns m) = some m
advance (continues m pc_after next_reg next_value) = do
  m' ← delayed_load m next_reg next_value
  let previous = set_reg m' Reg.prev_pc (reg m' Reg.pc)
  let current = set_reg previous Reg.pc (reg previous Reg.next_pc)
  some (set_reg current Reg.next_pc pc_after)

module _ (exception_handler : ExceptionType → Machine → Option Machine) where
  -- The switch, on the operation. OP_RFE has no case, and meets the ASSERT of the default one.
  unfoldable pub execute : Op → Machine → Instruction → ℕ → Option Outcome
  execute op_add m i pc_after = add exception_handler m i pc_after
  execute op_addi m i pc_after = addi exception_handler m i pc_after
  execute op_addiu m i pc_after = go_to (addiu m i) pc_after
  execute op_addu m i pc_after = go_to (addu m i) pc_after
  execute op_and m i pc_after = go_to (and_reg m i) pc_after
  execute op_andi m i pc_after = go_to (andi m i) pc_after
  execute op_beq m i pc_after = go_to m (beq m i pc_after)
  execute op_bgez m i pc_after = go_to m (bgez m i pc_after)
  execute op_bgezal m i pc_after = linked (bgezal m i pc_after)
  execute op_bgtz m i pc_after = go_to m (bgtz m i pc_after)
  execute op_blez m i pc_after = go_to m (blez m i pc_after)
  execute op_bltz m i pc_after = go_to m (bltz m i pc_after)
  execute op_bltzal m i pc_after = linked (bltzal m i pc_after)
  execute op_bne m i pc_after = go_to m (bne m i pc_after)
  execute op_div m i pc_after = div_reg m i pc_after
  execute op_divu m i pc_after = go_to (divu m i) pc_after
  execute op_j m i pc_after = go_to m (jump i pc_after)
  execute op_jal m i pc_after = linked (jal m i pc_after)
  execute op_jalr m i pc_after = linked (jalr m i)
  execute op_jr m i pc_after = go_to m (jr m i)
  execute op_lb m i pc_after = load_byte exception_handler true m i pc_after
  execute op_lbu m i pc_after = load_byte exception_handler false m i pc_after
  execute op_lh m i pc_after = load_half exception_handler true m i pc_after
  execute op_lhu m i pc_after = load_half exception_handler false m i pc_after
  execute op_lui m i pc_after = go_to (lui m i) pc_after
  execute op_lw m i pc_after = lw exception_handler m i pc_after
  execute op_lwl m i pc_after = lwl exception_handler m i pc_after
  execute op_lwr m i pc_after = lwr exception_handler m i pc_after
  execute op_mfhi m i pc_after = go_to (mfhi m i) pc_after
  execute op_mflo m i pc_after = go_to (mflo m i) pc_after
  execute op_mthi m i pc_after = go_to (mthi m i) pc_after
  execute op_mtlo m i pc_after = go_to (mtlo m i) pc_after
  execute op_mult m i pc_after = go_to (multiply m i true) pc_after
  execute op_multu m i pc_after = go_to (multiply m i false) pc_after
  execute op_nor m i pc_after = go_to (nor m i) pc_after
  execute op_or m i pc_after = go_to (or_reg m i) pc_after
  execute op_ori m i pc_after = go_to (ori m i) pc_after
  execute op_rfe m i pc_after = none
  execute op_sb m i pc_after = store_sized exception_handler 1 m i pc_after
  execute op_sh m i pc_after = store_sized exception_handler 2 m i pc_after
  execute op_sll m i pc_after = go_to (sll m i) pc_after
  execute op_sllv m i pc_after = go_to (sllv m i) pc_after
  execute op_slt m i pc_after = go_to (slt m i) pc_after
  execute op_slti m i pc_after = go_to (slti m i) pc_after
  execute op_sltiu m i pc_after = go_to (sltiu m i) pc_after
  execute op_sltu m i pc_after = go_to (sltu m i) pc_after
  execute op_sra m i pc_after = go_to (sra m i) pc_after
  execute op_srav m i pc_after = go_to (srav m i) pc_after
  execute op_srl m i pc_after = go_to (srl m i) pc_after
  execute op_srlv m i pc_after = go_to (srlv m i) pc_after
  execute op_sub m i pc_after = sub exception_handler m i pc_after
  execute op_subu m i pc_after = go_to (subu m i) pc_after
  execute op_sw m i pc_after = store_sized exception_handler 4 m i pc_after
  execute op_swl m i pc_after = swl exception_handler m i pc_after
  execute op_swr m i pc_after = swr exception_handler m i pc_after
  execute op_xor m i pc_after = go_to (xor_reg m i) pc_after
  execute op_xori m i pc_after = go_to (xori m i) pc_after
  execute op_syscall m i pc_after = traps exception_handler syscall_exception 0 m
  execute op_unimp m i pc_after = traps exception_handler illegal_instr_exception 0 m
  execute op_res m i pc_after = traps exception_handler illegal_instr_exception 0 m

  abbrev pub run_raw : Option ℕ × Machine → Option Machine
  run_raw (none, m) = some m
  run_raw (some raw, m) = do
    i ← decode raw
    outcome ← execute i.op_code m i (after_next m)
    advance outcome

  unfoldable pub one_instruction : Machine → Option Machine
  one_instruction m = read_mem exception_handler m (reg m Reg.pc) 4 >>= run_raw
