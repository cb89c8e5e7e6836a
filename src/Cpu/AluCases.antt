-- ===== src/Cpu/AluCases.antt =====
-- The cases of code/machine/mipssim.cc that only write registers keep the machine sound.
use os_td_minf.Prelude.{
  ℕ, ◌+◌, ◌-◌, ◌*◌, ◌/◌, ◌%◌, ◌^◌, ◌≤◌, ◌<◌, subst, inl, inr, Bool, arith, ◌==◌, Bool-cases,
}
use os_td_minf.Prelude.BitBounds.{bit_and-lt, bit_or-lt, bit_xor-lt}
use native.Mathlib.Nat.{div-le_self, mod-le, div-lt_iff_lt-mul, pow-le-pow_right}
use os_td_minf.Prelude.Bits.{pow_pos, pow_add}
use os_td_minf.Machine.Reg
use os_td_minf.Machine.{Machine}
use os_td_minf.Cpu.Word.{shift_right, shift_right_signed}
use os_td_minf.Cpu.Decode.{Instruction}
use os_td_minf.Cpu.Fields.{IsInstruction}
use os_td_minf.Cpu.Multiplier.{mult_lem}
use os_td_minf.Cpu.Alu.{
  rs_of, rt_of, low_half, divu, multiply, addiu, addu, and_reg, andi, lui, mfhi, mflo, mthi, mtlo,
  nor, or_reg, ori, sll, sllv, slt, slti, sltiu, sltu, sra, srav, srl, srlv, subu, xor_reg, xori,
}
use os_td_minf.Cpu.Sound.{IsSound}
use os_td_minf.Cpu.Outcomes.{Finished, written, written_twice}

shift_right-lt : (x k : ℕ) → x < 2 ^ 32 → shift_right x k < 2 ^ 32
shift_right-lt x k small = omega (arith, div-le_self x (2 ^ k))

down : (k : ℕ) → 32 - k ≤ 32
down k = omega arith

shift_right_signed-lt : (x k : ℕ) → x < 2 ^ 32 → shift_right_signed x k < 2 ^ 32
shift_right_signed-lt x k small =
    let fits : 32 ≤ 32 - k + k = omega arith in
    let le : 2 ^ (32 - k) ≤ 2 ^ 32 = pow-le-pow_right (omega arith) (down k) in
    let room : 2 ^ 32 ≤ 2 ^ (32 - k) * 2 ^ k =
      subst (λ n. 2 ^ 32 ≤ n) (pow_add (32 - k) k) (pow-le-pow_right (omega arith) fits) in
    let quotient : x / 2 ^ k < 2 ^ (32 - k) = (div-lt_iff_lt-mul (pow_pos k)).1 (omega arith) in
    ground (arith, quotient, div-le_self x (2 ^ k), le)

module _ (m : Machine) (i : Instruction) (sound : IsSound m) (fields : IsInstruction i)
    (pc_after : ℕ) (pc_bound : pc_after < 2 ^ 32) where
  pub addiu-Finished : Finished m (addiu m i) pc_after 0 0
  unfolding addiu
  addiu-Finished =
      written m sound pc_after pc_bound i.rt _ (omega (arith, fields.rt_bound)) (omega arith)

  pub addu-Finished : Finished m (addu m i) pc_after 0 0
  unfolding addu
  addu-Finished =
      written m sound pc_after pc_bound i.rd _ (omega (arith, fields.rd_bound)) (omega arith)

  pub and_reg-Finished : Finished m (and_reg m i) pc_after 0 0
  unfolding and_reg
  and_reg-Finished =
      written m sound pc_after pc_bound i.rd _ (omega (arith, fields.rd_bound))
        (bit_and-lt 32 (rs_of m i) (rt_of m i) (sound.words i.rs) (sound.words i.rt))

  pub andi-Finished : Finished m (andi m i) pc_after 0 0
  unfolding andi
  andi-Finished =
      written m sound pc_after pc_bound i.rt _ (omega (arith, fields.rt_bound))
        (bit_and-lt 32 (rs_of m i) (low_half i) (sound.words i.rs) (omega arith))

  pub lui-Finished : Finished m (lui m i) pc_after 0 0
  unfolding lui
  lui-Finished =
      written m sound pc_after pc_bound i.rt _ (omega (arith, fields.rt_bound)) (omega arith)

  pub mfhi-Finished : Finished m (mfhi m i) pc_after 0 0
  unfolding mfhi
  mfhi-Finished =
      written m sound pc_after pc_bound i.rd _ (omega (arith, fields.rd_bound)) (sound.words Reg.hi)

  pub mflo-Finished : Finished m (mflo m i) pc_after 0 0
  unfolding mflo
  mflo-Finished =
      written m sound pc_after pc_bound i.rd _ (omega (arith, fields.rd_bound)) (sound.words Reg.lo)

  pub mthi-Finished : Finished m (mthi m i) pc_after 0 0
  unfolding mthi
  mthi-Finished = written m sound pc_after pc_bound Reg.hi _ (omega arith) (sound.words i.rs)

  pub mtlo-Finished : Finished m (mtlo m i) pc_after 0 0
  unfolding mtlo
  mtlo-Finished = written m sound pc_after pc_bound Reg.lo _ (omega arith) (sound.words i.rs)

  pub nor-Finished : Finished m (nor m i) pc_after 0 0
  unfolding nor
  nor-Finished =
      written m sound pc_after pc_bound i.rd _ (omega (arith, fields.rd_bound)) (omega arith)

  pub or_reg-Finished : Finished m (or_reg m i) pc_after 0 0
  unfolding or_reg
  or_reg-Finished =
      written m sound pc_after pc_bound i.rd _ (omega (arith, fields.rd_bound))
        (bit_or-lt 32 (rs_of m i) (rt_of m i) (sound.words i.rs) (sound.words i.rt))

  pub ori-Finished : Finished m (ori m i) pc_after 0 0
  unfolding ori
  ori-Finished =
      written m sound pc_after pc_bound i.rt _ (omega (arith, fields.rt_bound))
        (bit_or-lt 32 (rs_of m i) (low_half i) (sound.words i.rs) (omega arith))

  pub sll-Finished : Finished m (sll m i) pc_after 0 0
  unfolding sll
  sll-Finished =
      written m sound pc_after pc_bound i.rd _ (omega (arith, fields.rd_bound)) (omega arith)

  pub sllv-Finished : Finished m (sllv m i) pc_after 0 0
  unfolding sllv
  sllv-Finished =
      written m sound pc_after pc_bound i.rd _ (omega (arith, fields.rd_bound)) (omega arith)

  pub slt-Finished : Finished m (slt m i) pc_after 0 0
  unfolding slt
  slt-Finished =
      written m sound pc_after pc_bound i.rd _ (omega (arith, fields.rd_bound)) (ground arith)

  pub slti-Finished : Finished m (slti m i) pc_after 0 0
  unfolding slti
  slti-Finished =
      written m sound pc_after pc_bound i.rt _ (omega (arith, fields.rt_bound)) (ground arith)

  pub sltiu-Finished : Finished m (sltiu m i) pc_after 0 0
  unfolding sltiu
  sltiu-Finished =
      written m sound pc_after pc_bound i.rt _ (omega (arith, fields.rt_bound)) (ground arith)

  pub sltu-Finished : Finished m (sltu m i) pc_after 0 0
  unfolding sltu
  sltu-Finished =
      written m sound pc_after pc_bound i.rd _ (omega (arith, fields.rd_bound)) (ground arith)

  pub sra-Finished : Finished m (sra m i) pc_after 0 0
  unfolding sra
  sra-Finished =
      written m sound pc_after pc_bound i.rd _ (omega (arith, fields.rd_bound))
        (shift_right_signed-lt (rt_of m i) i.extra (sound.words i.rt))

  pub srav-Finished : Finished m (srav m i) pc_after 0 0
  unfolding srav
  srav-Finished =
      written m sound pc_after pc_bound i.rd _ (omega (arith, fields.rd_bound))
        (shift_right_signed-lt (rt_of m i) (rs_of m i % 32) (sound.words i.rt))

  pub srl-Finished : Finished m (srl m i) pc_after 0 0
  unfolding srl
  srl-Finished =
      written m sound pc_after pc_bound i.rd _ (omega (arith, fields.rd_bound))
        (shift_right-lt (rt_of m i) i.extra (sound.words i.rt))

  pub srlv-Finished : Finished m (srlv m i) pc_after 0 0
  unfolding srlv
  srlv-Finished =
      written m sound pc_after pc_bound i.rd _ (omega (arith, fields.rd_bound))
        (shift_right-lt (rt_of m i) (rs_of m i % 32) (sound.words i.rt))

  pub subu-Finished : Finished m (subu m i) pc_after 0 0
  unfolding subu
  subu-Finished =
      written m sound pc_after pc_bound i.rd _ (omega (arith, fields.rd_bound)) (omega arith)

  pub xor_reg-Finished : Finished m (xor_reg m i) pc_after 0 0
  unfolding xor_reg
  xor_reg-Finished =
      written m sound pc_after pc_bound i.rd _ (omega (arith, fields.rd_bound))
        (bit_xor-lt 32 (rs_of m i) (rt_of m i) (sound.words i.rs) (sound.words i.rt))

  pub xori-Finished : Finished m (xori m i) pc_after 0 0
  unfolding xori
  xori-Finished =
      written m sound pc_after pc_bound i.rt _ (omega (arith, fields.rt_bound))
        (bit_xor-lt 32 (rs_of m i) (low_half i) (sound.words i.rs) (omega arith))

  pub divu-Finished : Finished m (divu m i) pc_after 0 0
  unfolding divu
  divu-Finished =
      let quotient = div-le_self (rs_of m i) (rt_of m i) in
      let remainder = mod-le (rs_of m i) (rt_of m i) in
      let word = sound.words i.rs in
      elim (Bool-cases (rt_of m i == 0)) [
        | inl e ↦ simp e (
            written_twice m sound pc_after pc_bound Reg.lo Reg.hi 0 0 (omega arith) (omega arith)
              (omega arith) (omega arith))
        | inr e ↦ simp e (
            written_twice m sound pc_after pc_bound Reg.lo Reg.hi (rs_of m i / rt_of m i)
              (rs_of m i % rt_of m i) (omega arith) (omega arith) (omega arith) (omega arith))
      ]

  pub multiply-Finished :
      (signed_arith : Bool) → Finished m (multiply m i signed_arith) pc_after 0 0
  unfolding multiply
  multiply-Finished signed_arith =
      let holds =
        mult_lem (rs_of m i) (rt_of m i) (sound.words i.rs) (sound.words i.rt) signed_arith in
      written_twice m sound pc_after pc_bound Reg.hi Reg.lo _ _ (omega arith) (omega arith)
        holds.hi_bound holds.lo_bound
