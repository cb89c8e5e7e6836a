-- ===== src/AddrSpace/Tests.antt =====
-- A program of 200 bytes of code, and the properties at it.
use os_td_minf.Prelude.{
  ℕ, ◌+◌, ◌-◌, ◌*◌, ◌≤◌, ◌<◌, ◌≡◌, refl, ◌≢◌, true, false, ◌&&◌, none, some, List, ◌∷◌, arith, ltb,
  leb, if◌then◌else◌, get_or, replicate,
}
use os_td_minf.Machine.Reg
use os_td_minf.Machine.{Machine, num_total_regs, reg, translate}
use os_td_minf.Machine.Bounds.{whole}
use os_td_minf.Bitmap.{div_round_up}
use os_td_minf.AddrSpace.Defs.{
  Executable, AddrSpace, space, read_header, pages_of, create, load_program, load_segment,
  init_registers, user_start_address, restore_state, identity_table, identity_entry,
}
use os_td_minf.AddrSpace.Addresses.{Sees, restore_state-Sees}
use os_td_minf.AddrSpace.Registers.{init_registers_lem}

-- The header's words, from the magic number on: 200 bytes of code from byte 40 of the file, at
-- address 128.
abbrev program_bytes : List ℕ
program_bytes = 173 ∷ 223 ∷ 186 ∷ 0 ∷ 128 ∷ 0 ∷ 0 ∷ 0 ∷ 40 ∷ 0 ∷ 0 ∷ 0 ∷ 200 ∷ replicate 27 0

abbrev program : Executable
program = record { size = 240; bytes = λ j. get_or program_bytes j 7 }

abbrev garbage : ℕ → ℕ
garbage j = 99

abbrev machine : Machine
machine = record {
  registers = λ r. 5;
  main_memory = λ j. 0;
  tlb = none;
  page_table = none;
  page_table_size = 0;
}

abbrev loaded : Machine
loaded = record machine {
  main_memory = λ j. if leb 128 j && ltb j (128 + 200) then program.bytes (40 + (j - 128)) else 0;
}

abbrev program_space : AddrSpace
program_space = record {
  page_table = record (identity_entry garbage 0) { valid = false } ∷ identity_table garbage 33 1;
  num_pages = 34;
}

create_runs : create garbage program machine ≡ some (space program_space loaded)
unfolding create load_program load_segment read_header pages_of div_round_up
create_runs = refl

restore_state-Sees_example :
    Sees program_space 200 4
      (restore_state program_space machine)
      (translate (restore_state program_space machine) 200 4 true)
restore_state-Sees_example =
    restore_state-Sees garbage program machine program_space loaded machine 200 4 true create_runs
      refl (whole refl)

init_registers_lem_example :
    (m' : Machine) × (init_registers program_space machine ≡ some m')
    × (reg m' Reg.pc ≡ user_start_address)
    × (reg m' Reg.next_pc ≡ 132)
    × (reg m' Reg.stack + 16 ≡ 34 * 128)
    × (128 ≤ reg m' Reg.stack)
    × ((j : ℕ) → j < num_total_regs → j ≢ Reg.pc → j ≢ Reg.next_pc → j ≢ Reg.stack → reg m' j ≡ 0)
unfolding read_header
init_registers_lem_example =
    init_registers_lem garbage program machine program_space loaded machine create_runs
      (omega arith)
