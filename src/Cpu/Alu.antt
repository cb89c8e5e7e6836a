-- ===== src/Cpu/Alu.antt =====
-- The cases of Machine::OneInstruction (code/machine/mipssim.cc) that write registers, and raise no
-- exception. The numbers of registers of a decoded instruction are below 32.
use os_td_minf.Prelude.{ℕ, ◌/◌, ◌%◌, ◌==◌, Bool, ltb, if◌then◌else◌}
use Prim.Native.Nat.{bit_and, bit_or, bit_xor}
use os_td_minf.Machine.Reg
use os_td_minf.Machine.{Machine, reg, set_reg}
use os_td_minf.Cpu.Word.{
  add32, sub32, not32, lt_signed, shift_left, shift_right, shift_right_signed,
}
use os_td_minf.Cpu.Decode.{Instruction}
use os_td_minf.Cpu.Mult.{mult}

abbrev pub rs_of : Machine → Instruction → ℕ
rs_of m i = reg m i.rs

abbrev pub rt_of : Machine → Instruction → ℕ
rt_of m i = reg m i.rt

-- `instr->extra & 0xffff`
abbrev pub low_half : Instruction → ℕ
low_half i = i.extra % 0x10000

abbrev flag : Bool → ℕ
flag b = if b then 1 else 0

unfoldable pub addiu : Machine → Instruction → Machine
addiu m i = set_reg m i.rt (add32 (rs_of m i) i.extra)

unfoldable pub addu : Machine → Instruction → Machine
addu m i = set_reg m i.rd (add32 (rs_of m i) (rt_of m i))

unfoldable pub and_reg : Machine → Instruction → Machine
and_reg m i = set_reg m i.rd (bit_and (rs_of m i) (rt_of m i))

unfoldable pub andi : Machine → Instruction → Machine
andi m i = set_reg m i.rt (bit_and (rs_of m i) (low_half i))

unfoldable pub divu : Machine → Instruction → Machine
divu m i =
    let rs = rs_of m i in
    let rt = rt_of m i in
    if rt == 0
    then set_reg (set_reg m Reg.lo 0) Reg.hi 0
    else set_reg (set_reg m Reg.lo (rs / rt)) Reg.hi (rs % rt)

unfoldable pub lui : Machine → Instruction → Machine
lui m i = set_reg m i.rt (shift_left i.extra 16)

unfoldable pub mfhi : Machine → Instruction → Machine
mfhi m i = set_reg m i.rd (reg m Reg.hi)

unfoldable pub mflo : Machine → Instruction → Machine
mflo m i = set_reg m i.rd (reg m Reg.lo)

unfoldable pub mthi : Machine → Instruction → Machine
mthi m i = set_reg m Reg.hi (rs_of m i)

unfoldable pub mtlo : Machine → Instruction → Machine
mtlo m i = set_reg m Reg.lo (rs_of m i)

-- `Mult (…, &registers[HiReg], &registers[LoReg])`
unfoldable pub multiply : Machine → Instruction → Bool → Machine
multiply m i signed_arith =
    let (hi, lo) = mult (rs_of m i) (rt_of m i) signed_arith in
    set_reg (set_reg m Reg.hi hi) Reg.lo lo

unfoldable pub nor : Machine → Instruction → Machine
nor m i = set_reg m i.rd (not32 (bit_or (rs_of m i) (rt_of m i)))

unfoldable pub or_reg : Machine → Instruction → Machine
or_reg m i = set_reg m i.rd (bit_or (rs_of m i) (rt_of m i))

unfoldable pub ori : Machine → Instruction → Machine
ori m i = set_reg m i.rt (bit_or (rs_of m i) (low_half i))

unfoldable pub sll : Machine → Instruction → Machine
sll m i = set_reg m i.rd (shift_left (rt_of m i) i.extra)

unfoldable pub sllv : Machine → Instruction → Machine
sllv m i = set_reg m i.rd (shift_left (rt_of m i) (rs_of m i % 32))

unfoldable pub slt : Machine → Instruction → Machine
slt m i = set_reg m i.rd (flag (lt_signed (rs_of m i) (rt_of m i)))

unfoldable pub slti : Machine → Instruction → Machine
slti m i = set_reg m i.rt (flag (lt_signed (rs_of m i) i.extra))

unfoldable pub sltiu : Machine → Instruction → Machine
sltiu m i = set_reg m i.rt (flag (ltb (rs_of m i) i.extra))

unfoldable pub sltu : Machine → Instruction → Machine
sltu m i = set_reg m i.rd (flag (ltb (rs_of m i) (rt_of m i)))

unfoldable pub sra : Machine → Instruction → Machine
sra m i = set_reg m i.rd (shift_right_signed (rt_of m i) i.extra)

unfoldable pub srav : Machine → Instruction → Machine
srav m i = set_reg m i.rd (shift_right_signed (rt_of m i) (rs_of m i % 32))

unfoldable pub srl : Machine → Instruction → Machine
srl m i = set_reg m i.rd (shift_right (rt_of m i) i.extra)

unfoldable pub srlv : Machine → Instruction → Machine
srlv m i = set_reg m i.rd (shift_right (rt_of m i) (rs_of m i % 32))

unfoldable pub subu : Machine → Instruction → Machine
subu m i = set_reg m i.rd (sub32 (rs_of m i) (rt_of m i))

unfoldable pub xor_reg : Machine → Instruction → Machine
xor_reg m i = set_reg m i.rd (bit_xor (rs_of m i) (rt_of m i))

unfoldable pub xori : Machine → Instruction → Machine
xori m i = set_reg m i.rt (bit_xor (rs_of m i) (low_half i))
