-- ===== src/Machine/Tlb.antt =====
-- Machine::Translate with a TLB: the entry is the first valid one for the page.
use os_td_minf.Prelude.{
  subst, ℕ, zero, suc, ◌+◌, ◌/◌, ◌<◌, ◌≡◌, refl, ap, subst, inl, inr, Bool, true, false, ◌&&◌,
  Option, none, some, List, arith, ◌==◌, Bool-cases, length, get_elem?,
}
use native.Mathlib.Decide.{dec_lt}
use os_td_minf.Machine.Defs.{
  Machine, TranslationEntry, page_fault_exception, address_error_exception, page_size, tlb_size,
}
use os_td_minf.Machine.Translation.{Translated, raised, misaligned, store_tlb, tlb_loop, translate}
use os_td_minf.Machine.Bounds.{
  IsAccess, UsesEntry, use_entry-UsesEntry, aligned_fits, get_elem?-inside,
}

abbrev pub holds : ℕ → TranslationEntry → Bool
holds virt_addr e = e.valid && e.virtual_page == virt_addr / page_size

-- No entry before `i` is for the page.
abbrev pub NoneBefore : List TranslationEntry → ℕ → ℕ → Type 0
NoneBefore tlb virt_addr i =
    (j : ℕ) (e : TranslationEntry) → j < i → get_elem? tlb j ≡ some e → holds virt_addr e ≡ false

-- A TLB of `tlb_size` entries is in use.
pub record Tlbed (m : Machine) (tlb : List TranslationEntry) : Type 0 where
  pub no_table : m.page_table ≡ none
  pub is_tlb : m.tlb ≡ some tlb
  pub room : length tlb ≡ tlb_size

-- What Machine::Translate comes to with a TLB.
pub data TlbOutcome (m : Machine) (tlb : List TranslationEntry) (virt_addr size : ℕ)
    (writing : Bool) (r : Option (Translated × Machine)) : Type 0 where
  unaligned :
      misaligned virt_addr size ≡ true
      → r ≡ some (raised address_error_exception, m)
      → TlbOutcome m tlb virt_addr size writing r
  miss :
      misaligned virt_addr size ≡ false
      → NoneBefore tlb virt_addr tlb_size
      → r ≡ some (raised page_fault_exception, m)
      → TlbOutcome m tlb virt_addr size writing r
  hit :
      (i : ℕ) (e : TranslationEntry)
      → misaligned virt_addr size ≡ false
      → get_elem? tlb i ≡ some e
      → holds virt_addr e ≡ true
      → NoneBefore tlb virt_addr i
      → UsesEntry virt_addr size writing (store_tlb m tlb i) m e r
      → TlbOutcome m tlb virt_addr size writing r

NoneBefore-next :
    (tlb : List TranslationEntry) (virt_addr i : ℕ) (x : TranslationEntry)
    → get_elem? tlb i ≡ some x
    → holds virt_addr x ≡ false
    → NoneBefore tlb virt_addr i
    → NoneBefore tlb virt_addr (i + 1)
NoneBefore-next tlb virt_addr i x at other before j y lt q = elim (dec_lt j i) [
  | yes p ↦ before j y p q
  | no p ↦
      let same : j ≡ i = omega arith in
      let here : x ≡ y = ground (arith, ap (get_elem? tlb) same) in
      subst (λ e. holds virt_addr e ≡ false) here other
]

tlb_loop-TlbOutcome :
    (k i : ℕ) (m : Machine) (tlb : List TranslationEntry) (virt_addr size : ℕ) (writing : Bool)
    → IsAccess size
    → misaligned virt_addr size ≡ false
    → i + k ≡ tlb_size
    → length tlb ≡ tlb_size
    → NoneBefore tlb virt_addr i
    → TlbOutcome m tlb virt_addr size writing (tlb_loop k i virt_addr size writing m tlb)
unfolding tlb_loop
tlb_loop-TlbOutcome zero i m tlb virt_addr size writing access good e room before =
    miss good (λ j x lt. before j x (omega arith)) refl
tlb_loop-TlbOutcome (suc k) i m tlb virt_addr size writing access good e room before =
    let (x, at) = get_elem?-inside tlb i (omega arith) in
    elim (Bool-cases (holds virt_addr x)) [
      | inl here ↦
          simp (at, here)
            (hit i x good at here before (
              use_entry-UsesEntry virt_addr size writing (store_tlb m tlb i) m x
                (aligned_fits virt_addr size access good)))
      | inr other ↦
          simp (at, other)
            (tlb_loop-TlbOutcome k (i + 1) m tlb virt_addr size writing access good (omega arith)
              room (NoneBefore-next tlb virt_addr i x at other before))
    ]

-- Machine::Translate with a TLB: an access that is not aligned is an address error; an aligned one
-- uses the first valid entry for the page, and is a page fault exactly when there is none; an access through the entry is as with a page table.
pub translate-TlbOutcome :
    (m : Machine) (tlb : List TranslationEntry) (virt_addr size : ℕ) (writing : Bool)
    → Tlbed m tlb
    → IsAccess size
    → TlbOutcome m tlb virt_addr size writing (translate m virt_addr size writing)
unfolding translate
translate-TlbOutcome m tlb virt_addr size writing tlbed access =
    elim (Bool-cases (misaligned virt_addr size)) [
      | inl bad ↦ simp bad (unaligned bad refl)
      | inr good ↦
          simp (good, tlbed.is_tlb, tlbed.no_table)
            (tlb_loop-TlbOutcome tlb_size 0 m tlb virt_addr size writing access good refl tlbed.room
              λ j e lt q. absurd (omega arith))
    ]
