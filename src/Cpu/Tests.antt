-- ===== src/Cpu/Tests.antt =====
-- Runs of the code of code/machine/mipssim.cc on a small program.
use os_td_minf.Prelude.{
  ℕ, ◌+◌, ◌-◌, ◌*◌, ◌%◌, ◌^◌, ◌≡◌, refl, true, false, Option, none, some, List, [], ◌∷◌, arith,
  ◌>>=◌,
}
use os_td_minf.Machine.Reg
use os_td_minf.Machine.{
  Machine, TranslationEntry, ExceptionType, Machine, reg, update, delayed_load, read_mem, fetch,
  translate, by_page_table, use_entry,
}
use os_td_minf.Cpu.Opcodes.{op_add, op_table}
use os_td_minf.Cpu.Decode.{Instruction, decode}
use os_td_minf.Cpu.Mult.{mult, mult_loop}
use os_td_minf.Cpu.Multiplier.{Holds, mult_lem}
use os_td_minf.Cpu.LoadStore.{merge_left, merge_right, store_left, store_right}
use os_td_minf.Cpu.Execute.{one_instruction, execute, advance, add, addi, sub}
use os_td_minf.Cpu.Sound.{IsReady, by_pages}
use os_td_minf.Cpu.Progress.{Stepped, one_instruction-Stepped}
use os_td_minf.Cpu.Signed.{Calculates, bias, add-Calculates, addi-Calculates, sub-Calculates}
use os_td_minf.Cpu.Unaligned.{
  byte_of, right_byte, left_byte, stored_right_byte, stored_left_byte, swapped, merge_right_lem,
  merge_left_lem, store_right_lem, store_left_lem,
}

abbrev table : List TranslationEntry
table =
    record {
      virtual_page = 0;
      physical_page = 5;
      valid = true;
      read_only = false;
      used = false;
      dirty = false;
    }
    ∷ []

-- `addi r2, r1, 5` at address 4, with 7 in register 1 and a pending load of 9 to register 3
abbrev machine : Machine
machine = record {
  registers =
      update (update (update (update (update (λ i. 0) 1 7) Reg.pc 4) Reg.next_pc 8) Reg.load 3)
        Reg.load_value 9;
  main_memory = update (update (update (λ a. 0) 644 5) 646 34) 647 32;
  tlb = none;
  page_table = some table;
  page_table_size = 1;
}

abbrev carry_on : ExceptionType → Machine → Option Machine
carry_on e m = some m

machine-IsReady : IsReady machine
machine-IsReady = record {
  sound = record {
    words = λ i. ground arith;
    load = omega arith;
    bytes = λ a. ground arith;
    mmu = by_pages table (record { no_tlb = refl; is_table = refl; room = omega arith });
  };
  zero_reg = refl;
}

abbrev seen : Machine → List ℕ
seen m = reg m 2 ∷ reg m 3 ∷ reg m Reg.pc ∷ reg m Reg.next_pc ∷ []

one_instruction_runs :
    (one_instruction carry_on machine >>= λ m. some (seen m)) ≡ some (12 ∷ 9 ∷ 8 ∷ 12 ∷ [])
unfolding one_instruction read_mem translate by_page_table use_entry fetch decode op_table execute
    addi advance delayed_load
one_instruction_runs = refl

one_instruction-Stepped_example : Stepped carry_on machine (one_instruction carry_on machine)
one_instruction-Stepped_example = one_instruction-Stepped carry_on machine machine-IsReady

mult_runs : mult (2 ^ 32 - 3) 7 true ≡ (2 ^ 32 - 1, 2 ^ 32 - 21)
unfolding mult mult_loop
mult_runs = refl

mult_lem_example : Holds (mult (2 ^ 32 - 3) 7 true) (18446744073709551613 * 7 % 2 ^ 64)
mult_lem_example = mult_lem (2 ^ 32 - 3) 7 (omega arith) (omega arith) true

abbrev instruction : Instruction
instruction = record { value = 0; op_code = op_add; rs = 1; rt = 1; rd = 2; extra = 2 ^ 31 }

add-Calculates_example :
    Calculates carry_on machine 2 12
      (bias 7 + bias 7)
      (2 ^ 31)
      (add carry_on machine instruction 12)
add-Calculates_example = add-Calculates carry_on machine instruction 12 (omega arith) (omega arith)

addi-Calculates_example :
    Calculates carry_on machine 1 12
      (bias 7 + bias (2 ^ 31))
      (2 ^ 31)
      (addi carry_on machine instruction 12)
addi-Calculates_example =
    addi-Calculates carry_on machine instruction 12 (omega arith) (omega arith)

sub-Calculates_example :
    Calculates carry_on machine 2 12
      (bias 7 + 2 ^ 31)
      (bias 7)
      (sub carry_on machine instruction 12)
sub-Calculates_example = sub-Calculates carry_on machine instruction 12 (omega arith) (omega arith)

merge_right_lem_example :
    byte_of (merge_right 1 0x11223344 0xaabbccdd) 2 ≡ right_byte 1 0x11223344 0xaabbccdd 2
merge_right_lem_example =
    merge_right_lem 0x11223344 0xaabbccdd (omega arith) (omega arith) 1 2 (omega arith)
      (omega arith)

merge_left_lem_example :
    byte_of (merge_left 0 0x11223344 0xaabbccdd) 2 ≡ left_byte (swapped 0) 0x11223344 0xaabbccdd 2
merge_left_lem_example =
    merge_left_lem 0x11223344 0xaabbccdd (omega arith) (omega arith) 0 2 (omega arith) (omega arith)

store_right_lem_example :
    byte_of (store_right 1 0x11223344 0xaabbccdd) 2 ≡ stored_right_byte 1 0x11223344 0xaabbccdd 2
store_right_lem_example =
    store_right_lem 0x11223344 0xaabbccdd (omega arith) (omega arith) 1 2 (omega arith)
      (omega arith)

store_left_lem_example :
    byte_of (store_left 1 0x11223344 0xaabbccdd) 2 ≡ stored_left_byte 1 0x11223344 0xaabbccdd 2
store_left_lem_example =
    store_left_lem 0x11223344 0xaabbccdd (omega arith) (omega arith) 1 2 (omega arith) (omega arith)
