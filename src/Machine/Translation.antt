-- ===== src/Machine/Translation.antt =====
-- Machine::Translate of code/machine/translate.cc. `x & 0x3` is `x % 4`.
use os_td_minf.Prelude.{
  ℕ, zero, suc, ◌+◌, ◌*◌, ◌/◌, ◌%◌, Bool, true, not, ◌&&◌, ◌||◌, Option, none, some, List, leb,
  ◌==◌, if◌then◌else◌, ◌>>=◌, ◌>>◌, assert, get_elem?, set,
}
use os_td_minf.Machine.Defs.{
  Machine, TranslationEntry, ExceptionType, page_fault_exception, read_only_exception,
  bus_error_exception, address_error_exception, page_size, num_phys_pages, memory_size, tlb_size,
}

-- An exception, or NoException with the physical address.
pub data Translated : Type 0 where
  raised : ExceptionType → Translated
  physical : ℕ → Translated

abbrev pub misaligned : ℕ → ℕ → Bool
misaligned virt_addr size =
    size == 4 && not (virt_addr % 4 == 0) || size == 2 && not (virt_addr % 2 == 0)

-- The end of the function, from the entry found: `store` writes the entry back where it was found.
unfoldable pub use_entry :
    ℕ
    → ℕ
    → Bool
    → (TranslationEntry → Machine)
    → Machine
    → TranslationEntry
    → Option (Translated × Machine)
use_entry virt_addr size writing store m entry =
    let phys_addr = entry.physical_page * page_size + virt_addr % page_size in
    let done =
      assert (leb (phys_addr + size) memory_size)
      >> some (
        physical phys_addr,
        store (record entry { used = true; dirty = writing || entry.dirty }),
      ) in
    if entry.read_only && writing
    then some (raised read_only_exception, m)
    else if leb num_phys_pages entry.physical_page
    then some (raised bus_error_exception, m)
    else done

abbrev pub store_page : Machine → List TranslationEntry → ℕ → TranslationEntry → Machine
store_page m table i e = record m { page_table = some (set table i e) }

unfoldable pub by_page_table :
    ℕ → ℕ → Bool → Machine → List TranslationEntry → Option (Translated × Machine)
by_page_table virt_addr size writing m table =
    let vpn = virt_addr / page_size in
    let use_page = λ (entry : TranslationEntry).
      if entry.valid
      then use_entry virt_addr size writing (store_page m table vpn) m entry
      else some (raised page_fault_exception, m) in
    if leb m.page_table_size vpn
    then some (raised address_error_exception, m)
    else get_elem? table vpn >>= use_page

abbrev pub store_tlb : Machine → List TranslationEntry → ℕ → TranslationEntry → Machine
store_tlb m tlb i e = record m { tlb = some (set tlb i e) }

-- for (entry = NULL, i = 0; i < TLBSize; i++) …, then what follows
unfoldable pub tlb_loop :
    ℕ → ℕ → ℕ → ℕ → Bool → Machine → List TranslationEntry → Option (Translated × Machine)
tlb_loop zero i virt_addr size writing m tlb = some (raised page_fault_exception, m)
tlb_loop (suc k) i virt_addr size writing m tlb = do
  entry ← get_elem? tlb i
  let rest = tlb_loop k (i + 1) virt_addr size writing m tlb
  let found = use_entry virt_addr size writing (store_tlb m tlb i) m entry
  if entry.valid && entry.virtual_page == virt_addr / page_size then found else rest

abbrev pub by_table :
    ℕ
    → ℕ
    → Bool
    → Machine
    → Option (List TranslationEntry)
    → Option (List TranslationEntry)
    → Option (Translated × Machine)
by_table virt_addr size writing m (some tlb) (some table) = none
by_table virt_addr size writing m none none = none
by_table virt_addr size writing m none (some table) = by_page_table virt_addr size writing m table
by_table virt_addr size writing m (some tlb) none = tlb_loop tlb_size 0 virt_addr size writing m tlb

unfoldable pub translate : Machine → ℕ → ℕ → Bool → Option (Translated × Machine)
translate m virt_addr size writing =
    if misaligned virt_addr size
    then some (raised address_error_exception, m)
    else by_table virt_addr size writing m m.tlb m.page_table
