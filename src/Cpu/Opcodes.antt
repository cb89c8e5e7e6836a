-- ===== src/Cpu/Opcodes.antt =====
-- The operation codes and decoding tables of code/machine/mipssim.h.
use os_td_minf.Prelude.{List, [], ◌∷◌}

pub data Op : Type 0 where
  op_add op_addi op_addiu op_addu op_and op_andi op_beq op_bgez : Op
  op_bgezal op_bgtz op_blez op_bltz op_bltzal op_bne op_div op_divu : Op
  op_j op_jal op_jalr op_jr op_lb op_lbu op_lh op_lhu : Op
  op_lui op_lw op_lwl op_lwr op_mfhi op_mflo op_mthi op_mtlo : Op
  op_mult op_multu op_nor op_or op_ori op_rfe op_sb op_sh : Op
  op_sll op_sllv op_slt op_slti op_sltiu op_sltu op_sra op_srav : Op
  op_srl op_srlv op_sub op_subu op_sw op_swl op_swr op_xor : Op
  op_xori op_syscall op_unimp op_res : Op

-- The first field of an entry of `opTable`: an operation, or a word for further decoding.
pub data Code : Type 0 where
  plain : Op → Code
  special : Code
  bcond : Code

pub data Format : Type 0 where
  ifmt jfmt rfmt : Format

pub record OpInfo : Type 0 where
  pub op_code : Code
  pub format : Format

abbrev info : Code → Format → OpInfo
info c f = record { op_code = c; format = f }

unfoldable pub op_table : List OpInfo
op_table =
    info special rfmt
    ∷ info bcond ifmt
    ∷ info (plain op_j) jfmt
    ∷ info (plain op_jal) jfmt
    ∷ info (plain op_beq) ifmt
    ∷ info (plain op_bne) ifmt
    ∷ info (plain op_blez) ifmt
    ∷ info (plain op_bgtz) ifmt
    ∷ info (plain op_addi) ifmt
    ∷ info (plain op_addiu) ifmt
    ∷ info (plain op_slti) ifmt
    ∷ info (plain op_sltiu) ifmt
    ∷ info (plain op_andi) ifmt
    ∷ info (plain op_ori) ifmt
    ∷ info (plain op_xori) ifmt
    ∷ info (plain op_lui) ifmt
    ∷ info (plain op_unimp) ifmt
    ∷ info (plain op_unimp) ifmt
    ∷ info (plain op_unimp) ifmt
    ∷ info (plain op_unimp) ifmt
    ∷ info (plain op_res) ifmt
    ∷ info (plain op_res) ifmt
    ∷ info (plain op_res) ifmt
    ∷ info (plain op_res) ifmt
    ∷ info (plain op_res) ifmt
    ∷ info (plain op_res) ifmt
    ∷ info (plain op_res) ifmt
    ∷ info (plain op_res) ifmt
    ∷ info (plain op_res) ifmt
    ∷ info (plain op_res) ifmt
    ∷ info (plain op_res) ifmt
    ∷ info (plain op_res) ifmt
    ∷ info (plain op_lb) ifmt
    ∷ info (plain op_lh) ifmt
    ∷ info (plain op_lwl) ifmt
    ∷ info (plain op_lw) ifmt
    ∷ info (plain op_lbu) ifmt
    ∷ info (plain op_lhu) ifmt
    ∷ info (plain op_lwr) ifmt
    ∷ info (plain op_res) ifmt
    ∷ info (plain op_sb) ifmt
    ∷ info (plain op_sh) ifmt
    ∷ info (plain op_swl) ifmt
    ∷ info (plain op_sw) ifmt
    ∷ info (plain op_res) ifmt
    ∷ info (plain op_res) ifmt
    ∷ info (plain op_swr) ifmt
    ∷ info (plain op_res) ifmt
    ∷ info (plain op_unimp) ifmt
    ∷ info (plain op_unimp) ifmt
    ∷ info (plain op_unimp) ifmt
    ∷ info (plain op_unimp) ifmt
    ∷ info (plain op_res) ifmt
    ∷ info (plain op_res) ifmt
    ∷ info (plain op_res) ifmt
    ∷ info (plain op_res) ifmt
    ∷ info (plain op_unimp) ifmt
    ∷ info (plain op_unimp) ifmt
    ∷ info (plain op_unimp) ifmt
    ∷ info (plain op_unimp) ifmt
    ∷ info (plain op_res) ifmt
    ∷ info (plain op_res) ifmt
    ∷ info (plain op_res) ifmt
    ∷ info (plain op_res) ifmt
    ∷ []

unfoldable pub special_table : List Op
special_table =
    op_sll ∷ op_res ∷ op_srl ∷ op_sra ∷ op_sllv ∷ op_res ∷ op_srlv ∷ op_srav ∷ op_jr ∷ op_jalr
    ∷ op_res ∷ op_res ∷ op_syscall ∷ op_unimp ∷ op_res ∷ op_res ∷ op_mfhi ∷ op_mthi ∷ op_mflo
    ∷ op_mtlo ∷ op_res ∷ op_res ∷ op_res ∷ op_res ∷ op_mult ∷ op_multu ∷ op_div ∷ op_divu ∷ op_res
    ∷ op_res ∷ op_res ∷ op_res ∷ op_add ∷ op_addu ∷ op_sub ∷ op_subu ∷ op_and ∷ op_or ∷ op_xor
    ∷ op_nor ∷ op_res ∷ op_res ∷ op_slt ∷ op_sltu ∷ op_res ∷ op_res ∷ op_res ∷ op_res ∷ op_res
    ∷ op_res ∷ op_res ∷ op_res ∷ op_res ∷ op_res ∷ op_res ∷ op_res ∷ op_res ∷ op_res ∷ op_res
    ∷ op_res ∷ op_res ∷ op_res ∷ op_res ∷ op_res ∷ []
