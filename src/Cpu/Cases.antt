-- ===== src/Cpu/Cases.antt =====
-- Every case of the switch of Machine::OneInstruction (code/machine/mipssim.cc).
use os_td_minf.Prelude.{ℕ, ◌^◌, ◌<◌, ◌≡◌, refl, true, false, Option, arith}
use os_td_minf.Machine.{Machine, ExceptionType, syscall_exception, illegal_instr_exception}
use os_td_minf.Machine.Bounds.{byte, half, whole}
use os_td_minf.Cpu.Opcodes.{
  Op, op_add, op_addi, op_addiu, op_addu, op_and, op_andi, op_beq, op_bgez, op_bgezal, op_bgtz,
  op_blez, op_bltz, op_bltzal, op_bne, op_div, op_divu, op_j, op_jal, op_jalr, op_jr, op_lb, op_lbu,
  op_lh, op_lhu, op_lui, op_lw, op_lwl, op_lwr, op_mfhi, op_mflo, op_mthi, op_mtlo, op_mult,
  op_multu, op_nor, op_or, op_ori, op_rfe, op_sb, op_sh, op_sll, op_sllv, op_slt, op_slti, op_sltiu,
  op_sltu, op_sra, op_srav, op_srl, op_srlv, op_sub, op_subu, op_sw, op_swl, op_swr, op_xor,
  op_xori, op_syscall, op_unimp, op_res,
}
use os_td_minf.Cpu.Decode.{Instruction}
use os_td_minf.Cpu.Fields.{is_rfe, IsInstruction}
use os_td_minf.Cpu.Execute.{execute}
use os_td_minf.Cpu.Sound.{IsSound}
use os_td_minf.Cpu.Outcomes.{Fares, finished, unchanged}
use os_td_minf.Cpu.AluCases.{
  addiu-Finished, addu-Finished, and_reg-Finished, andi-Finished, divu-Finished, lui-Finished,
  mfhi-Finished, mflo-Finished, mthi-Finished, mtlo-Finished, multiply-Finished, nor-Finished,
  or_reg-Finished, ori-Finished, sll-Finished, sllv-Finished, slt-Finished, slti-Finished,
  sltiu-Finished, sltu-Finished, sra-Finished, srav-Finished, srl-Finished, srlv-Finished,
  subu-Finished, xor_reg-Finished, xori-Finished,
}
use os_td_minf.Cpu.BranchCases.{
  bgezal-Finished, bltzal-Finished, jal-Finished, jalr-Finished, beq-lt, bgez-lt, bgtz-lt, blez-lt,
  bltz-lt, bne-lt, jr-lt, jump-lt, add-Fares, addi-Fares, sub-Fares, div_reg-Fares,
}
use os_td_minf.Cpu.MemoryCases.{
  load_byte-Fares, load_half-Fares, lw-Fares, lwl-Fares, lwr-Fares, store_sized-Fares, swl-Fares,
  swr-Fares, traps-Fares,
}

module _ (handler : ExceptionType → Machine → Option Machine) where
  pub execute-Fares :
      (o : Op) (m : Machine) (i : Instruction) (pc_after : ℕ)
      → IsSound m
      → IsInstruction i
      → pc_after < 2 ^ 32
      → is_rfe o ≡ false
      → Fares handler m i o (execute handler o m i pc_after)
  unfolding execute
  execute-Fares op_add m i pc_after sound fields pc_bound known =
      add-Fares m i sound fields pc_after pc_bound handler
  execute-Fares op_addi m i pc_after sound fields pc_bound known =
      addi-Fares m i sound fields pc_after pc_bound handler
  execute-Fares op_addiu m i pc_after sound fields pc_bound known =
      finished _ _ _ _ refl (addiu-Finished m i sound fields pc_after pc_bound)
  execute-Fares op_addu m i pc_after sound fields pc_bound known =
      finished _ _ _ _ refl (addu-Finished m i sound fields pc_after pc_bound)
  execute-Fares op_and m i pc_after sound fields pc_bound known =
      finished _ _ _ _ refl (and_reg-Finished m i sound fields pc_after pc_bound)
  execute-Fares op_andi m i pc_after sound fields pc_bound known =
      finished _ _ _ _ refl (andi-Finished m i sound fields pc_after pc_bound)
  execute-Fares op_beq m i pc_after sound fields pc_bound known =
      finished _ _ _ _ refl (unchanged m sound _ (beq-lt m i pc_after pc_bound))
  execute-Fares op_bgez m i pc_after sound fields pc_bound known =
      finished _ _ _ _ refl (unchanged m sound _ (bgez-lt m i pc_after pc_bound))
  execute-Fares op_bgezal m i pc_after sound fields pc_bound known =
      finished _ _ _ _ refl (bgezal-Finished m i sound fields pc_after pc_bound)
  execute-Fares op_bgtz m i pc_after sound fields pc_bound known =
      finished _ _ _ _ refl (unchanged m sound _ (bgtz-lt m i pc_after pc_bound))
  execute-Fares op_blez m i pc_after sound fields pc_bound known =
      finished _ _ _ _ refl (unchanged m sound _ (blez-lt m i pc_after pc_bound))
  execute-Fares op_bltz m i pc_after sound fields pc_bound known =
      finished _ _ _ _ refl (unchanged m sound _ (bltz-lt m i pc_after pc_bound))
  execute-Fares op_bltzal m i pc_after sound fields pc_bound known =
      finished _ _ _ _ refl (bltzal-Finished m i sound fields pc_after pc_bound)
  execute-Fares op_bne m i pc_after sound fields pc_bound known =
      finished _ _ _ _ refl (unchanged m sound _ (bne-lt m i pc_after pc_bound))
  execute-Fares op_div m i pc_after sound fields pc_bound known =
      div_reg-Fares m i sound fields pc_after pc_bound handler
  execute-Fares op_divu m i pc_after sound fields pc_bound known =
      finished _ _ _ _ refl (divu-Finished m i sound fields pc_after pc_bound)
  execute-Fares op_j m i pc_after sound fields pc_bound known =
      finished _ _ _ _ refl (unchanged m sound _ (jump-lt i pc_after pc_bound))
  execute-Fares op_jal m i pc_after sound fields pc_bound known =
      finished _ _ _ _ refl (jal-Finished m i sound fields pc_after pc_bound)
  execute-Fares op_jalr m i pc_after sound fields pc_bound known =
      finished _ _ _ _ refl (jalr-Finished m i sound fields)
  execute-Fares op_jr m i pc_after sound fields pc_bound known =
      finished _ _ _ _ refl (unchanged m sound _ (jr-lt m i sound))
  execute-Fares op_lb m i pc_after sound fields pc_bound known =
      load_byte-Fares handler m i op_lb sound pc_after pc_bound true fields
  execute-Fares op_lbu m i pc_after sound fields pc_bound known =
      load_byte-Fares handler m i op_lbu sound pc_after pc_bound false fields
  execute-Fares op_lh m i pc_after sound fields pc_bound known =
      load_half-Fares handler m i op_lh sound pc_after pc_bound true fields
  execute-Fares op_lhu m i pc_after sound fields pc_bound known =
      load_half-Fares handler m i op_lhu sound pc_after pc_bound false fields
  execute-Fares op_lui m i pc_after sound fields pc_bound known =
      finished _ _ _ _ refl (lui-Finished m i sound fields pc_after pc_bound)
  execute-Fares op_lw m i pc_after sound fields pc_bound known =
      lw-Fares handler m i op_lw sound pc_after pc_bound fields
  execute-Fares op_lwl m i pc_after sound fields pc_bound known =
      lwl-Fares handler m i op_lwl sound pc_after pc_bound fields
  execute-Fares op_lwr m i pc_after sound fields pc_bound known =
      lwr-Fares handler m i op_lwr sound pc_after pc_bound fields
  execute-Fares op_mfhi m i pc_after sound fields pc_bound known =
      finished _ _ _ _ refl (mfhi-Finished m i sound fields pc_after pc_bound)
  execute-Fares op_mflo m i pc_after sound fields pc_bound known =
      finished _ _ _ _ refl (mflo-Finished m i sound fields pc_after pc_bound)
  execute-Fares op_mthi m i pc_after sound fields pc_bound known =
      finished _ _ _ _ refl (mthi-Finished m i sound fields pc_after pc_bound)
  execute-Fares op_mtlo m i pc_after sound fields pc_bound known =
      finished _ _ _ _ refl (mtlo-Finished m i sound fields pc_after pc_bound)
  execute-Fares op_mult m i pc_after sound fields pc_bound known =
      finished _ _ _ _ refl (multiply-Finished m i sound fields pc_after pc_bound true)
  execute-Fares op_multu m i pc_after sound fields pc_bound known =
      finished _ _ _ _ refl (multiply-Finished m i sound fields pc_after pc_bound false)
  execute-Fares op_nor m i pc_after sound fields pc_bound known =
      finished _ _ _ _ refl (nor-Finished m i sound fields pc_after pc_bound)
  execute-Fares op_or m i pc_after sound fields pc_bound known =
      finished _ _ _ _ refl (or_reg-Finished m i sound fields pc_after pc_bound)
  execute-Fares op_ori m i pc_after sound fields pc_bound known =
      finished _ _ _ _ refl (ori-Finished m i sound fields pc_after pc_bound)
  execute-Fares op_rfe m i pc_after sound fields pc_bound known = absurd (ground (arith, known))
  execute-Fares op_sb m i pc_after sound fields pc_bound known =
      store_sized-Fares handler m i op_sb sound pc_after pc_bound 1 (byte refl)
  execute-Fares op_sh m i pc_after sound fields pc_bound known =
      store_sized-Fares handler m i op_sh sound pc_after pc_bound 2 (half refl)
  execute-Fares op_sll m i pc_after sound fields pc_bound known =
      finished _ _ _ _ refl (sll-Finished m i sound fields pc_after pc_bound)
  execute-Fares op_sllv m i pc_after sound fields pc_bound known =
      finished _ _ _ _ refl (sllv-Finished m i sound fields pc_after pc_bound)
  execute-Fares op_slt m i pc_after sound fields pc_bound known =
      finished _ _ _ _ refl (slt-Finished m i sound fields pc_after pc_bound)
  execute-Fares op_slti m i pc_after sound fields pc_bound known =
      finished _ _ _ _ refl (slti-Finished m i sound fields pc_after pc_bound)
  execute-Fares op_sltiu m i pc_after sound fields pc_bound known =
      finished _ _ _ _ refl (sltiu-Finished m i sound fields pc_after pc_bound)
  execute-Fares op_sltu m i pc_after sound fields pc_bound known =
      finished _ _ _ _ refl (sltu-Finished m i sound fields pc_after pc_bound)
  execute-Fares op_sra m i pc_after sound fields pc_bound known =
      finished _ _ _ _ refl (sra-Finished m i sound fields pc_after pc_bound)
  execute-Fares op_srav m i pc_after sound fields pc_bound known =
      finished _ _ _ _ refl (srav-Finished m i sound fields pc_after pc_bound)
  execute-Fares op_srl m i pc_after sound fields pc_bound known =
      finished _ _ _ _ refl (srl-Finished m i sound fields pc_after pc_bound)
  execute-Fares op_srlv m i pc_after sound fields pc_bound known =
      finished _ _ _ _ refl (srlv-Finished m i sound fields pc_after pc_bound)
  execute-Fares op_sub m i pc_after sound fields pc_bound known =
      sub-Fares m i sound fields pc_after pc_bound handler
  execute-Fares op_subu m i pc_after sound fields pc_bound known =
      finished _ _ _ _ refl (subu-Finished m i sound fields pc_after pc_bound)
  execute-Fares op_sw m i pc_after sound fields pc_bound known =
      store_sized-Fares handler m i op_sw sound pc_after pc_bound 4 (whole refl)
  execute-Fares op_swl m i pc_after sound fields pc_bound known =
      swl-Fares handler m i op_swl sound pc_after pc_bound
  execute-Fares op_swr m i pc_after sound fields pc_bound known =
      swr-Fares handler m i op_swr sound pc_after pc_bound
  execute-Fares op_xor m i pc_after sound fields pc_bound known =
      finished _ _ _ _ refl (xor_reg-Finished m i sound fields pc_after pc_bound)
  execute-Fares op_xori m i pc_after sound fields pc_bound known =
      finished _ _ _ _ refl (xori-Finished m i sound fields pc_after pc_bound)
  execute-Fares op_syscall m i pc_after sound fields pc_bound known =
      traps-Fares handler m i op_syscall sound pc_after pc_bound syscall_exception 0 (omega arith)
  execute-Fares op_unimp m i pc_after sound fields pc_bound known =
      traps-Fares handler m i op_unimp sound pc_after pc_bound illegal_instr_exception 0
        (omega arith)
  execute-Fares op_res m i pc_after sound fields pc_bound known =
      traps-Fares handler m i op_res sound pc_after pc_bound illegal_instr_exception 0 (omega arith)
