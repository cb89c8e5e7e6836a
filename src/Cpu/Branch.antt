-- ===== src/Cpu/Branch.antt =====
-- The jumps and branches of Machine::OneInstruction (code/machine/mipssim.cc): the machine and the
-- variable pcAfter, which is NextPC + 4 before the switch.
use os_td_minf.Prelude.{ℕ, ◌+◌, ◌*◌, ◌/◌, ◌%◌, ◌^◌, ◌==◌, Bool, not, ◌&&◌, ◌||◌, if◌then◌else◌}
use os_td_minf.Machine.Reg
use os_td_minf.Machine.{Machine, reg, set_reg}
use os_td_minf.Cpu.Word.{add32, is_negative, index_to_addr}
use os_td_minf.Cpu.Decode.{Instruction}
use os_td_minf.Cpu.Alu.{rs_of, rt_of}

abbrev pub after_next : Machine → ℕ
after_next m = add32 (reg m Reg.next_pc) 4

-- `if (…) pcAfter = registers[NextPCReg] + IndexToAddr(instr->extra);`
abbrev pub branch_if : Bool → Machine → Instruction → ℕ → ℕ
branch_if taken m i pc_after =
    if taken then add32 (reg m Reg.next_pc) (index_to_addr i.extra) else pc_after

-- `registers[r] = registers[NextPCReg] + 4;`
abbrev pub link : Machine → ℕ → Machine
link m r = set_reg m r (add32 (reg m Reg.next_pc) 4)

unfoldable pub beq : Machine → Instruction → ℕ → ℕ
beq m i = branch_if (rs_of m i == rt_of m i) m i

unfoldable pub bgez : Machine → Instruction → ℕ → ℕ
bgez m i = branch_if (not (is_negative (rs_of m i))) m i

unfoldable pub bgezal : Machine → Instruction → ℕ → Machine × ℕ
bgezal m i pc_after = let m' = link m Reg.ret_addr in (m', bgez m' i pc_after)

unfoldable pub bgtz : Machine → Instruction → ℕ → ℕ
bgtz m i = branch_if (not (is_negative (rs_of m i)) && not (rs_of m i == 0)) m i

unfoldable pub blez : Machine → Instruction → ℕ → ℕ
blez m i = branch_if (is_negative (rs_of m i) || rs_of m i == 0) m i

unfoldable pub bltz : Machine → Instruction → ℕ → ℕ
bltz m i = branch_if (is_negative (rs_of m i)) m i

unfoldable pub bltzal : Machine → Instruction → ℕ → Machine × ℕ
bltzal m i pc_after = let m' = link m Reg.ret_addr in (m', bltz m' i pc_after)

unfoldable pub bne : Machine → Instruction → ℕ → ℕ
bne m i = branch_if (not (rs_of m i == rt_of m i)) m i

-- `(pcAfter & 0xf0000000) | IndexToAddr(instr->extra)`, where the target has 28 bits
unfoldable pub jump : Instruction → ℕ → ℕ
jump i pc_after = pc_after / 2 ^ 28 * 2 ^ 28 + index_to_addr i.extra % 2 ^ 28

unfoldable pub jal : Machine → Instruction → ℕ → Machine × ℕ
jal m i pc_after = (link m Reg.ret_addr, jump i pc_after)

unfoldable pub jr : Machine → Instruction → ℕ
jr m i = rs_of m i

unfoldable pub jalr : Machine → Instruction → Machine × ℕ
jalr m i = let m' = link m i.rd in (m', jr m' i)
