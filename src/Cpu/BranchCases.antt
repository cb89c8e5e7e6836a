-- ===== src/Cpu/BranchCases.antt =====
-- The jumps, branches and trapping cases of code/machine/mipssim.cc keep the machine sound, or trap.
use os_td_minf.Prelude.{
  ℕ, ◌^◌, ◌<◌, refl, inl, inr, Bool, true, false, Option, arith, ◌==◌, Bool-cases,
}
use native.Mathlib.Nat.{div-le_self, mod-le}
use os_td_minf.Machine.Reg
use os_td_minf.Machine.{Machine, ExceptionType, overflow_exception}
use os_td_minf.Cpu.Word.{div_signed, mod_signed, magnitude}
use os_td_minf.Cpu.Opcodes.{op_add, op_addi, op_sub, op_div}
use os_td_minf.Cpu.Decode.{Instruction}
use os_td_minf.Cpu.Fields.{IsInstruction}
use os_td_minf.Cpu.Alu.{rs_of, rt_of}
use os_td_minf.Cpu.Branch.{
  branch_if, link, beq, bgez, bgezal, bgtz, blez, bltz, bltzal, bne, jump, jal, jr, jalr,
}
use os_td_minf.Cpu.Execute.{
  add_overflows, addi_overflows, sub_overflows, division_traps, add, addi, sub, div_reg,
}
use os_td_minf.Cpu.Sound.{IsSound}
use os_td_minf.Cpu.Outcomes.{Finished, Fares, finished, divided, written, written_twice}
use os_td_minf.Cpu.MemoryCases.{traps-Fares}

branch_if-lt :
    (b : Bool) (m : Machine) (i : Instruction) (pc_after : ℕ)
    → pc_after < 2 ^ 32
    → branch_if b m i pc_after < 2 ^ 32
branch_if-lt true m i pc_after h = omega arith
branch_if-lt false m i pc_after h = h

module _ (m : Machine) (i : Instruction) (pc_after : ℕ) (pc_bound : pc_after < 2 ^ 32) where
  pub beq-lt : beq m i pc_after < 2 ^ 32
  unfolding beq
  beq-lt = branch_if-lt _ m i pc_after pc_bound

  pub bgez-lt : bgez m i pc_after < 2 ^ 32
  unfolding bgez
  bgez-lt = branch_if-lt _ m i pc_after pc_bound

  pub bgtz-lt : bgtz m i pc_after < 2 ^ 32
  unfolding bgtz
  bgtz-lt = branch_if-lt _ m i pc_after pc_bound

  pub blez-lt : blez m i pc_after < 2 ^ 32
  unfolding blez
  blez-lt = branch_if-lt _ m i pc_after pc_bound

  pub bltz-lt : bltz m i pc_after < 2 ^ 32
  unfolding bltz
  bltz-lt = branch_if-lt _ m i pc_after pc_bound

  pub bne-lt : bne m i pc_after < 2 ^ 32
  unfolding bne
  bne-lt = branch_if-lt _ m i pc_after pc_bound

pub jump-lt : (i : Instruction) (pc_after : ℕ) → pc_after < 2 ^ 32 → jump i pc_after < 2 ^ 32
unfolding jump
jump-lt i pc_after h = omega arith

pub jr-lt : (m : Machine) (i : Instruction) → IsSound m → jr m i < 2 ^ 32
unfolding jr
jr-lt m i sound = sound.words i.rs

link-IsSound : (m : Machine) (r : ℕ) → r < 32 → IsSound m → IsSound (link m r)
link-IsSound m r small sound =
    (written m sound 0 (omega arith) r _ (omega arith) (omega arith)).sound

div_signed-lt : (a b : ℕ) → a < 2 ^ 32 → div_signed a b < 2 ^ 32
div_signed-lt a b h = ground (arith, div-le_self (magnitude a) (magnitude b))

mod_signed-lt : (a b : ℕ) → a < 2 ^ 32 → mod_signed a b < 2 ^ 32
mod_signed-lt a b h = ground (arith, mod-le (magnitude a) (magnitude b))

module _ (m : Machine) (i : Instruction) (sound : IsSound m) (fields : IsInstruction i) where
  pub jalr-Finished : Finished m (jalr m i).0 (jalr m i).1 0 0
  unfolding jalr
  jalr-Finished =
      written m sound (jr (link m i.rd) i)
        (jr-lt (link m i.rd) i (link-IsSound m i.rd fields.rd_bound sound)) i.rd _
        (omega (arith, fields.rd_bound)) (omega arith)

  module _ (pc_after : ℕ) (pc_bound : pc_after < 2 ^ 32) where
    pub bgezal-Finished : Finished m (bgezal m i pc_after).0 (bgezal m i pc_after).1 0 0
    unfolding bgezal
    bgezal-Finished =
        written m sound (bgez (link m Reg.ret_addr) i pc_after)
          (bgez-lt (link m Reg.ret_addr) i pc_after pc_bound) Reg.ret_addr _ (omega arith)
          (omega arith)

    pub bltzal-Finished : Finished m (bltzal m i pc_after).0 (bltzal m i pc_after).1 0 0
    unfolding bltzal
    bltzal-Finished =
        written m sound (bltz (link m Reg.ret_addr) i pc_after)
          (bltz-lt (link m Reg.ret_addr) i pc_after pc_bound) Reg.ret_addr _ (omega arith)
          (omega arith)

    pub jal-Finished : Finished m (jal m i pc_after).0 (jal m i pc_after).1 0 0
    unfolding jal
    jal-Finished =
        written m sound (jump i pc_after) (jump-lt i pc_after pc_bound) Reg.ret_addr _ (omega arith)
          (omega arith)

    pub div_reg-Fares :
        (handler : ExceptionType → Machine → Option Machine)
        → Fares handler m i op_div (div_reg m i pc_after)
    unfolding div_reg
    div_reg-Fares handler = elim (Bool-cases (rt_of m i == 0)) [
      | inl e ↦ simp e (
          finished _ _ _ _ refl (
            written_twice m sound pc_after pc_bound Reg.lo Reg.hi 0 0 (omega arith) (omega arith)
              (omega arith) (omega arith)))
      | inr e ↦ elim (Bool-cases (division_traps (rs_of m i) (rt_of m i))) [
        | inl f ↦ simp (e, f) (divided refl f refl)
        | inr f ↦
            simp (e, f)
              (finished _ _ _ _ refl (
                written_twice m sound pc_after pc_bound Reg.lo Reg.hi
                  (div_signed (rs_of m i) (rt_of m i)) (mod_signed (rs_of m i) (rt_of m i))
                  (omega arith) (omega arith)
                  (div_signed-lt (rs_of m i) (rt_of m i) (sound.words i.rs))
                  (mod_signed-lt (rs_of m i) (rt_of m i) (sound.words i.rs))))
      ]
    ]

    module _ (handler : ExceptionType → Machine → Option Machine) where
      pub add-Fares : Fares handler m i op_add (add handler m i pc_after)
      unfolding add
      add-Fares = elim (Bool-cases (add_overflows (rs_of m i) (rt_of m i))) [
        | inl e ↦ simp e (
            traps-Fares handler m i op_add sound pc_after pc_bound overflow_exception 0
              (omega arith))
        | inr e ↦ simp e (
            finished _ _ _ _ refl (
              written m sound pc_after pc_bound i.rd _ (omega (arith, fields.rd_bound))
                (omega arith)))
      ]

      pub addi-Fares : Fares handler m i op_addi (addi handler m i pc_after)
      unfolding addi
      addi-Fares = elim (Bool-cases (addi_overflows (rs_of m i) i.extra)) [
        | inl e ↦ simp e (
            traps-Fares handler m i op_addi sound pc_after pc_bound overflow_exception 0
              (omega arith))
        | inr e ↦ simp e (
            finished _ _ _ _ refl (
              written m sound pc_after pc_bound i.rt _ (omega (arith, fields.rt_bound))
                (omega arith)))
      ]

      pub sub-Fares : Fares handler m i op_sub (sub handler m i pc_after)
      unfolding sub
      sub-Fares = elim (Bool-cases (sub_overflows (rs_of m i) (rt_of m i))) [
        | inl e ↦ simp e (
            traps-Fares handler m i op_sub sound pc_after pc_bound overflow_exception 0
              (omega arith))
        | inr e ↦ simp e (
            finished _ _ _ _ refl (
              written m sound pc_after pc_bound i.rd _ (omega (arith, fields.rd_bound))
                (omega arith)))
      ]
