-- ===== src/Machine/Tests.antt =====
-- Runs of the memory's code, and its theorems at small page tables and TLBs.
use os_td_minf.Prelude.{
  ℕ, zero, suc, ◌≡◌, refl, Bool, true, false, Option, none, some, List, [], ◌∷◌, arith, ◌==◌,
  if◌then◌else◌, ◌>>=◌,
}
use os_td_minf.Machine.Defs.{
  Machine, TranslationEntry, ExceptionType, page_fault_exception, read_only_exception,
  address_error_exception,
}
use os_td_minf.Machine.Translation.{raised, physical, translate, by_page_table, use_entry}
use os_td_minf.Machine.Memory.{fetch, store, read_mem, write_mem}
use os_td_minf.Machine.Bounds.{byte, whole, Paged, PageOutcome, translate-PageOutcome}
use os_td_minf.Machine.Tlb.{TlbOutcome, translate-TlbOutcome}
use os_td_minf.Machine.ReadWrite.{FramesApart, translate_injective, stored, read_mem-write_mem}

abbrev page : ℕ → ℕ → Bool → Bool → TranslationEntry
page v p valid read_only = record {
  virtual_page = v;
  physical_page = p;
  valid = valid;
  read_only = read_only;
  used = false;
  dirty = false;
}

-- Page 0 is not there, page 1 is at frame 5, page 2 is read-only at frame 3.
abbrev table : List TranslationEntry
table = page 0 0 false false ∷ page 1 5 true false ∷ page 2 3 true true ∷ []

abbrev paged_machine : Machine
paged_machine = record {
  registers = λ i. 0;
  main_memory = λ a. 0;
  tlb = none;
  page_table = some table;
  page_table_size = 3;
}

paged_machine-Paged : Paged paged_machine table
paged_machine-Paged = record { no_tlb = refl; is_table = refl; room = omega arith }

abbrev tlb : List TranslationEntry
tlb = page 7 1 false false ∷ page 7 9 true false ∷ page 1 5 true false ∷ page 7 2 true false ∷ []

abbrev tlb_machine : Machine
tlb_machine = record paged_machine { tlb = some tlb; page_table = none }

-- The kernel stops the machine at the first exception.
abbrev stop : ExceptionType → Machine → Option Machine
stop e m = none

translate_runs :
    (translate paged_machine 131 1 true
      ≡ some (
        physical 643,
        record paged_machine {
          page_table = some (
              page 0 0 false false
              ∷ record (page 1 5 true false) { used = true; dirty = true }
              ∷ page 2 3 true true
              ∷ []);
        },
      ))
    × (translate paged_machine 130 4 true ≡ some (raised address_error_exception, paged_machine))
    × (translate paged_machine 12 4 false ≡ some (raised page_fault_exception, paged_machine))
    × (translate paged_machine 256 4 true ≡ some (raised read_only_exception, paged_machine))
    × (translate paged_machine 384 4 true ≡ some (raised address_error_exception, paged_machine))
unfolding translate by_page_table use_entry
translate_runs = (refl, refl, refl, refl, refl)

write_and_read :
    (write_mem stop paged_machine 132 4 0xdead_beef >>= λ (r : Bool × Machine).
    read_mem stop r.1 134 2 >>= λ (s : Option ℕ × Machine). s.0)
    ≡ some 0xdead
unfolding write_mem read_mem translate by_page_table use_entry fetch store
write_and_read = refl

translate-PageOutcome_example :
    PageOutcome paged_machine table 131 1 true (translate paged_machine 131 1 true)
translate-PageOutcome_example =
    translate-PageOutcome paged_machine table 131 1 true paged_machine-Paged (byte refl)

translate-TlbOutcome_example :
    TlbOutcome tlb_machine tlb 900 4 false (translate tlb_machine 900 4 false)
translate-TlbOutcome_example =
    translate-TlbOutcome tlb_machine tlb 900 4 false
      (record { no_table = refl; is_tlb = refl; room = refl }) (whole refl)

table-FramesApart : FramesApart table
table-FramesApart zero j e f p q u v w = cc
table-FramesApart (suc zero) zero e f p q u v w = cc
table-FramesApart (suc zero) (suc zero) e f p q u v w = refl
table-FramesApart (suc zero) (suc (suc zero)) e f p q u v w = ground arith
table-FramesApart (suc zero) (suc (suc (suc j))) e f p q u v w = cc
table-FramesApart (suc (suc zero)) zero e f p q u v w = cc
table-FramesApart (suc (suc zero)) (suc zero) e f p q u v w = ground arith
table-FramesApart (suc (suc zero)) (suc (suc zero)) e f p q u v w = refl
table-FramesApart (suc (suc zero)) (suc (suc (suc j))) e f p q u v w = cc
table-FramesApart (suc (suc (suc i))) j e f p q u v w = cc

abbrev after_write : Machine
after_write = record paged_machine {
  page_table = some (
      page 0 0 false false
      ∷ record (page 1 5 true false) { used = true; dirty = true }
      ∷ page 2 3 true true
      ∷ []);
}

abbrev after_read : Machine
after_read = record paged_machine {
  page_table = some (
      page 0 0 false false
      ∷ record (page 1 5 true false) { used = true }
      ∷ page 2 3 true true
      ∷ []);
}

translate_injective_example : ◌≡◌ {A = ℕ} 132 132
unfolding translate by_page_table use_entry
translate_injective_example =
    translate_injective paged_machine table 132 132 1 4 true false 644 after_write after_read
      paged_machine-Paged table-FramesApart (byte refl) (whole refl) refl refl

read_mem-write_mem_example :
    (m : Machine) × (read_mem stop
        (record after_write { main_memory = λ a. if 643 == a then 200 else 0 })
        131
        1
      ≡ some (some (stored 1 456), m))
unfolding write_mem translate by_page_table use_entry store
read_mem-write_mem_example =
    read_mem-write_mem stop paged_machine table 131 1 456 _ paged_machine-Paged (byte refl)
      (omega arith) refl
