-- ===== src/AddrSpace/Addresses.antt =====
-- Addresses of a user program are those of the memory.
use os_td_minf.Prelude.{
  ℕ, ◌+◌, ◌*◌, ◌/◌, ◌%◌, ◌≤◌, ◌<◌, ◌≡◌, refl, sym, ap, ◌∙◌, inl, inr, Bool, true, false, Option,
  none, some, arith, ◌==◌, ==_iff, Bool-cases, get_elem?,
}
use os_td_minf.Machine.{
  Machine, page_size, translate, store_page, misaligned, raised, physical, Translated,
  page_fault_exception, address_error_exception,
}
use os_td_minf.Machine.Bounds.{
  IsAccess, PageOutcome, unaligned, beyond, invalid, through, UsesEntry, read_only, bad_frame,
  mapped, translate-PageOutcome, aligned_fits, touched,
}
use os_td_minf.AddrSpace.Defs.{Executable, AddrSpace, space, create, restore_state}
use os_td_minf.AddrSpace.Identity.{Identity, create-Made}

-- How the program of an address space sees an address: as it is, on the pages from 1 on.
pub data Sees (a : AddrSpace) (virt_addr size : ℕ) (m : Machine) (r : Option (Translated × Machine))
    : Type 0 where
  off_boundary :
      misaligned virt_addr size ≡ true
      → r ≡ some (raised address_error_exception, m)
      → Sees a virt_addr size m r
  outside_space :
      misaligned virt_addr size ≡ false
      → a.num_pages * page_size ≤ virt_addr
      → r ≡ some (raised address_error_exception, m)
      → Sees a virt_addr size m r
  near_null :
      misaligned virt_addr size ≡ false
      → virt_addr < a.num_pages * page_size
      → virt_addr < page_size
      → r ≡ some (raised page_fault_exception, m)
      → Sees a virt_addr size m r
  as_it_is :
      (m' : Machine)
      → misaligned virt_addr size ≡ false
      → page_size ≤ virt_addr
      → virt_addr + size ≤ a.num_pages * page_size
      → r ≡ some (physical virt_addr, m')
      → m'.main_memory ≡ m.main_memory
      → Sees a virt_addr size m r

-- In an address space that the constructor made, after RestoreState on a machine without a TLB:
-- every aligned address from page 1 to the end of the space is translated to itself, whether it is
-- read or written; addresses below are page faults and addresses above are address errors.
pub restore_state-Sees :
    (unset : ℕ → ℕ) (executable : Executable) (m₀ : Machine) (a : AddrSpace) (m₁ m : Machine)
    (virt_addr size : ℕ) (writing : Bool)
    → create unset executable m₀ ≡ some (space a m₁)
    → m.tlb ≡ none
    → IsAccess size
    → Sees a virt_addr size
        (restore_state a m)
        (translate (restore_state a m) virt_addr size writing)
unfolding restore_state
restore_state-Sees unset executable m₀ a m₁ m virt_addr size writing made no_tlb access = see (
    translate-PageOutcome restored a.page_table virt_addr size writing
      record { no_tlb = no_tlb; is_table = refl; room = omega (arith, identity.many) } access)
  where
    identity : Identity a
    identity = (create-Made unset executable m₀ a m₁ made).0

    restored : Machine
    restored = record m { page_table = some a.page_table; page_table_size = a.num_pages }

    see :
        PageOutcome restored a.page_table virt_addr size writing
          (translate restored virt_addr size writing)
        → Sees a virt_addr size restored (translate restored virt_addr size writing)
    see (unaligned bad done) = off_boundary bad done
    see (beyond good high done) = outside_space good (ground (arith, high)) done
    see (invalid e good low at stale done) = elim (Bool-cases (virt_addr / page_size == 0)) [
      | inl zero_page ↦ near_null good (ground (arith, low)) (ground (arith, zero_page)) done
      | inr other ↦
          let page = identity.pages (virt_addr / page_size) e (ground (arith, other)) at in
          ground (arith, stale, page.1)
    ]
    see (through e good low at valid uses) = elim (Bool-cases (virt_addr / page_size == 0)) [
      | inl zero_page ↦
          let first : get_elem? a.page_table 0 ≡ some e =
            ap (get_elem? a.page_table) (sym ((==_iff (virt_addr / page_size) 0).0 zero_page))
            ∙ at in
          ground (arith, valid, identity.page_0 e first)
      | inr other ↦
          go (ground (arith, other))
            (identity.pages (virt_addr / page_size) e (ground (arith, other)) at) uses
    ]
      where
        fits : virt_addr % page_size + size ≤ page_size
        fits = aligned_fits virt_addr size access good

        go :
            0 < virt_addr / page_size
            → (e.physical_page ≡ virt_addr / page_size) × (e.valid ≡ true) × (e.read_only ≡ false)
            → UsesEntry virt_addr size writing
                (store_page restored a.page_table (virt_addr / page_size))
                restored
                e
                (translate restored virt_addr size writing)
            → Sees a virt_addr size restored (translate restored virt_addr size writing)
        go above page (read_only closed _ _) = ground (arith, closed, page.2)
        go above page (bad_frame _ big _) = absurd (omega (arith, big, page.0, low, identity.fits))
        go above page (mapped _ _ _ done) =
            as_it_is _ good (omega (arith, above)) (omega (arith, low, fits))
              (done
                ∙ ap
                    (λ x. some (
                      physical x,
                      store_page restored a.page_table (virt_addr / page_size) (touched e writing),
                    ))
                    (omega (arith, page.0)))
              refl
