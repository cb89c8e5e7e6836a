-- ===== src/Cpu/Decode.antt =====
-- Instruction::Decode of code/machine/mipssim.cc.
use os_td_minf.Prelude.{
  ℕ, ◌+◌, ◌/◌, ◌%◌, ◌^◌, Option, some, leb, ◌==◌, if◌then◌else◌, ◌>>=◌, get_elem?,
}
use os_td_minf.Cpu.Opcodes.{
  Op, op_bltz, op_bgez, op_bltzal, op_bgezal, op_unimp, Code, plain, special, bcond, Format, ifmt,
  jfmt, rfmt, op_table, special_table,
}

pub record Instruction : Type 0 where
  pub value : ℕ
  pub op_code : Op
  pub rs : ℕ
  pub rt : ℕ
  pub rd : ℕ
  pub extra : ℕ

-- An immediate is sign-extended: with bit 15 set the upper half is filled with ones.
abbrev pub extra_of : Format → ℕ → ℕ
extra_of ifmt value =
    if leb 0x8000 (value % 0x10000) then value % 0x10000 + 0xffff_0000 else value % 0x10000
extra_of rfmt value = value / 2 ^ 6 % 32
extra_of jfmt value = value % 0x400_0000

-- `value & 0x1f0000` against the four codes
abbrev pub bcond_op : ℕ → Op
bcond_op value =
    let i = value / 2 ^ 16 % 32 in
    if i == 0
    then op_bltz
    else if i == 1
    then op_bgez
    else if i == 16
    then op_bltzal
    else if i == 17
    then op_bgezal
    else op_unimp

-- Indexing `specialTable` outside its bounds would be a fault.
abbrev pub final_op : Code → ℕ → Option Op
final_op (plain o) value = some o
final_op special value = get_elem? special_table (value % 64)
final_op bcond value = some (bcond_op value)

unfoldable pub decode : ℕ → Option Instruction
decode value = do
  info ← get_elem? op_table (value / 2 ^ 26 % 64)
  op ← final_op info.op_code value
  some (record {
    value = value;
    op_code = op;
    rs = value / 2 ^ 21 % 32;
    rt = value / 2 ^ 16 % 32;
    rd = value / 2 ^ 11 % 32;
    extra = extra_of info.format value;
  })
