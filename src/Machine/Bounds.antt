-- ===== src/Machine/Bounds.antt =====
-- What Machine::Translate does on each branch, and that its ASSERT on the result never fails.
use os_td_minf.Prelude.{
  ℕ, zero, suc, ◌+◌, ◌*◌, ◌/◌, ◌%◌, ◌≤◌, ◌<◌, ◌≡◌, refl, ◌⊎◌, inl, inr, Bool, true, false, ◌&&◌,
  ◌||◌, Option, none, some, List, [], ◌∷◌, arith, leb, le→leb, Bool-cases, length, get_elem?,
}
use os_td_minf.Machine.Defs.{
  Machine, TranslationEntry, page_fault_exception, read_only_exception, bus_error_exception,
  address_error_exception, page_size, num_phys_pages, memory_size,
}
use os_td_minf.Machine.Translation.{
  Translated, raised, physical, misaligned, use_entry, store_page, by_page_table, translate,
}

-- The sizes of an access.
pub data IsAccess (size : ℕ) : Type 0 where
  byte : size ≡ 1 → IsAccess size
  half : size ≡ 2 → IsAccess size
  whole : size ≡ 4 → IsAccess size

abbrev pub address : TranslationEntry → ℕ → ℕ
address e virt_addr = e.physical_page * page_size + virt_addr % page_size

abbrev pub touched : TranslationEntry → Bool → TranslationEntry
touched e writing = record e { used = true; dirty = writing || e.dirty }

-- What an access through the entry `e` comes to.
pub data UsesEntry (virt_addr size : ℕ) (writing : Bool) (store : TranslationEntry → Machine)
    (m : Machine) (e : TranslationEntry) (r : Option (Translated × Machine)) : Type 0 where
  read_only :
      e.read_only ≡ true
      → writing ≡ true
      → r ≡ some (raised read_only_exception, m)
      → UsesEntry virt_addr size writing store m e r
  bad_frame :
      (e.read_only && writing) ≡ false
      → num_phys_pages ≤ e.physical_page
      → r ≡ some (raised bus_error_exception, m)
      → UsesEntry virt_addr size writing store m e r
  mapped :
      (e.read_only && writing) ≡ false
      → e.physical_page < num_phys_pages
      → address e virt_addr + size ≤ memory_size
      → r ≡ some (physical (address e virt_addr), store (touched e writing))
      → UsesEntry virt_addr size writing store m e r

-- An aligned access stays within its page.
pub aligned_fits :
    (virt_addr size : ℕ)
    → IsAccess size
    → misaligned virt_addr size ≡ false
    → virt_addr % page_size + size ≤ page_size
aligned_fits virt_addr size (byte e) h = ground arith
aligned_fits virt_addr size (half e) h = ground arith
aligned_fits virt_addr size (whole e) h = ground arith

pub use_entry-UsesEntry :
    (virt_addr size : ℕ) (writing : Bool) (store : TranslationEntry → Machine) (m : Machine)
    (e : TranslationEntry)
    → virt_addr % page_size + size ≤ page_size
    → UsesEntry virt_addr size writing store m e (use_entry virt_addr size writing store m e)
unfolding use_entry
use_entry-UsesEntry virt_addr size writing store m e fits =
    elim (Bool-cases (e.read_only && writing)) [
      | inl p ↦ simp p (read_only (ground arith) (ground arith) refl)
      | inr p ↦ elim (Bool-cases (leb num_phys_pages e.physical_page)) [
        | inl big ↦ simp (p, big) (bad_frame p (ground arith) refl)
        | inr small ↦
            let inside : address e virt_addr + size ≤ memory_size = ground arith in
            simp (p, small, le→leb (address e virt_addr + size) memory_size inside)
              (mapped p (ground arith) inside refl)
      ]
    ]

-- A linear page table is in use, with as many entries as the machine was told.
pub record Paged (m : Machine) (table : List TranslationEntry) : Type 0 where
  pub no_tlb : m.tlb ≡ none
  pub is_table : m.page_table ≡ some table
  pub room : m.page_table_size ≤ length table

-- What Machine::Translate comes to with a linear page table.
pub data PageOutcome (m : Machine) (table : List TranslationEntry) (virt_addr size : ℕ)
    (writing : Bool) (r : Option (Translated × Machine)) : Type 0 where
  unaligned :
      misaligned virt_addr size ≡ true
      → r ≡ some (raised address_error_exception, m)
      → PageOutcome m table virt_addr size writing r
  beyond :
      misaligned virt_addr size ≡ false
      → m.page_table_size ≤ virt_addr / page_size
      → r ≡ some (raised address_error_exception, m)
      → PageOutcome m table virt_addr size writing r
  invalid :
      (e : TranslationEntry)
      → misaligned virt_addr size ≡ false
      → virt_addr / page_size < m.page_table_size
      → get_elem? table (virt_addr / page_size) ≡ some e
      → e.valid ≡ false
      → r ≡ some (raised page_fault_exception, m)
      → PageOutcome m table virt_addr size writing r
  through :
      (e : TranslationEntry)
      → misaligned virt_addr size ≡ false
      → virt_addr / page_size < m.page_table_size
      → get_elem? table (virt_addr / page_size) ≡ some e
      → e.valid ≡ true
      → UsesEntry virt_addr size writing (store_page m table (virt_addr / page_size)) m e r
      → PageOutcome m table virt_addr size writing r

pub get_elem?-inside {ℓ} :
    {A : Type ℓ} (xs : List A) (i : ℕ) → i < length xs → (x : A) × (get_elem? xs i ≡ some x)
get_elem?-inside [] i h = absurd (omega arith)
get_elem?-inside (x ∷ xs) zero h = (x, refl)
get_elem?-inside (x ∷ xs) (suc i) h = get_elem?-inside xs i (omega arith)

-- Machine::Translate with a linear page table: each exception is raised exactly in its case, with
-- no change to the machine; otherwise the address is the one in the page's frame, the access lies
-- in the memory, so that the ASSERT holds, and only the page's use and dirty bits change.
pub translate-PageOutcome :
    (m : Machine) (table : List TranslationEntry) (virt_addr size : ℕ) (writing : Bool)
    → Paged m table
    → IsAccess size
    → PageOutcome m table virt_addr size writing (translate m virt_addr size writing)
unfolding translate by_page_table
translate-PageOutcome m table virt_addr size writing paged access =
    elim (Bool-cases (misaligned virt_addr size)) [
      | inl bad ↦ simp bad (unaligned bad refl)
      | inr good ↦
          simp (good, paged.no_tlb, paged.is_table)
            (go good (Bool-cases (leb m.page_table_size vpn)))
    ]
  where
    vpn : ℕ
    vpn = virt_addr / page_size

    go₂ :
        misaligned virt_addr size ≡ false
        → leb m.page_table_size vpn ≡ false
        → (e : TranslationEntry) × (get_elem? table vpn ≡ some e)
        → PageOutcome m table virt_addr size writing (by_page_table virt_addr size writing m table)
    go₂ good low (e, at) = elim (Bool-cases e.valid) [
      | inl valid ↦
          simp (low, at, valid)
            (through e good (ground arith) at valid (
              use_entry-UsesEntry virt_addr size writing (store_page m table vpn) m e
                (aligned_fits virt_addr size access good)))
      | inr stale ↦ simp (low, at, stale) (invalid e good (ground arith) at stale refl)
    ]

    go :
        misaligned virt_addr size ≡ false
        → (leb m.page_table_size vpn ≡ true) ⊎ (leb m.page_table_size vpn ≡ false)
        → PageOutcome m table virt_addr size writing (by_page_table virt_addr size writing m table)
    go good (inl high) = simp high (beyond good (ground arith) refl)
    go good (inr low) = go₂ good low (get_elem?-inside table vpn (ground (arith, paged.room)))
