-- ===== src/Cpu/Access.antt =====
-- What ReadMem and WriteMem of code/machine/translate.cc do to a sound machine.
use os_td_minf.Prelude.{
  ℕ, ◌+◌, ◌/◌, ◌%◌, ◌^◌, ◌<◌, ◌≡◌, refl, sym, subst, ◌∙◌, Bool, true, false, Option, none, some,
  List, arith, set, length-set, ◌>>=◌,
}
use os_td_minf.Machine.Reg
use os_td_minf.Machine.{
  Machine, ExceptionType, TranslationEntry, fetch, store, put_byte, translate, Translated, raised,
  physical, read_mem, write_mem,
}
use os_td_minf.Machine.Bounds.{
  Paged, PageOutcome, unaligned, beyond, invalid, through, UsesEntry, read_only, bad_frame, mapped,
  IsAccess, byte, half, whole, touched, translate-PageOutcome,
}
use os_td_minf.Machine.{page_size}
use os_td_minf.Machine.Tlb.{Tlbed, TlbOutcome, unaligned as skewed, miss, hit, translate-TlbOutcome}
use os_td_minf.Cpu.Sound.{
  HasMmu, HasMmu-same, by_pages, by_tlb, IsSound, Stopped, raise_exception-Stopped,
}

-- Only the table's or the TLB's use and dirty bits have changed.
pub record Keeps (m m' : Machine) : Type 0 where
  pub same_registers : m'.registers ≡ m.registers
  pub same_memory : m'.main_memory ≡ m.main_memory
  pub mmu_kept : HasMmu m'

pub data Translates (m : Machine) (r : Option (Translated × Machine)) : Type 0 where
  raises : (e : ExceptionType) → r ≡ some (raised e, m) → Translates m r
  finds : (a : ℕ) (m' : Machine) → r ≡ some (physical a, m') → Keeps m m' → Translates m r

from_entry :
    {v s : ℕ} {w : Bool} {st : TranslationEntry → Machine} {m : Machine} {e : TranslationEntry}
    {r : Option (Translated × Machine)}
    → UsesEntry v s w st m e r
    → Keeps m (st (touched e w))
    → Translates m r
from_entry (read_only h k q) keeps = raises _ q
from_entry (bad_frame h k q) keeps = raises _ q
from_entry (mapped h k l q) keeps = finds _ _ q keeps

from_pages :
    (m : Machine) (table : List TranslationEntry) (virt_addr size : ℕ) (writing : Bool)
    → Paged m table
    → {r : Option (Translated × Machine)} → PageOutcome m table virt_addr size writing r
    → Translates m r
from_pages m table virt_addr size writing p (unaligned h q) = raises _ q
from_pages m table virt_addr size writing p (beyond a h q) = raises _ q
from_pages m table virt_addr size writing p (invalid e a l h k q) = raises _ q
from_pages m table virt_addr size writing p (through e h k l n u) = from_entry u (record {
  same_registers = refl;
  same_memory = refl;
  mmu_kept = by_pages (set table (virt_addr / page_size) (touched e writing)) (record {
    no_tlb = p.no_tlb;
    is_table = refl;
    room = rw (length-set table (virt_addr / page_size) (touched e writing)) p.room;
  });
})

from_tlb :
    (m : Machine) (tlb : List TranslationEntry) (virt_addr size : ℕ) (writing : Bool)
    → Tlbed m tlb
    → {r : Option (Translated × Machine)} → TlbOutcome m tlb virt_addr size writing r
    → Translates m r
from_tlb m tlb virt_addr size writing t (skewed h q) = raises _ q
from_tlb m tlb virt_addr size writing t (miss a h q) = raises _ q
from_tlb m tlb virt_addr size writing t (hit i e h k l n u) = from_entry u (record {
  same_registers = refl;
  same_memory = refl;
  mmu_kept = by_tlb (set tlb i (touched e writing)) (record {
    no_table = t.no_table;
    is_tlb = refl;
    room = length-set tlb i (touched e writing) ∙ t.room;
  });
})

translate-Translates :
    (m : Machine) (virt_addr size : ℕ) (writing : Bool)
    → IsAccess size
    → HasMmu m
    → Translates m (translate m virt_addr size writing)
translate-Translates m virt_addr size writing access (by_pages table p) =
    from_pages m table virt_addr size writing p
      (translate-PageOutcome m table virt_addr size writing p access)
translate-Translates m virt_addr size writing access (by_tlb tlb t) =
    from_tlb m tlb virt_addr size writing t
      (translate-TlbOutcome m tlb virt_addr size writing t access)

Keeps-IsSound : (m m' : Machine) → Keeps m m' → IsSound m → IsSound m'
Keeps-IsSound m m' keeps sound = record {
  words = λ i. subst (λ r. r i < 2 ^ 32) (sym keeps.same_registers) (sound.words i);
  load = subst (λ r. r Reg.load < 32) (sym keeps.same_registers) sound.load;
  bytes = λ a. subst (λ f. f a < 256) (sym keeps.same_memory) (sound.bytes a);
  mmu = keeps.mmu_kept;
}

put_byte-IsSound : (m : Machine) (a v : ℕ) → v < 256 → IsSound m → IsSound (put_byte m a v)
put_byte-IsSound m a v small sound = record {
  words = sound.words;
  load = sound.load;
  bytes = λ b. ground (arith, sound.bytes b);
  mmu = HasMmu-same m (put_byte m a v) refl refl refl sound.mmu;
}

fetch_lem :
    (m : Machine) (a size : ℕ)
    → IsAccess size
    → IsSound m
    → (v : ℕ) × (fetch m a size ≡ some v) × (v < 2 ^ 32)
unfolding fetch
fetch_lem m a size (byte e) sound = simp e (_, refl, ground (arith, sound.bytes a))
fetch_lem m a size (half e) sound =
    simp e (_, refl, omega (arith, sound.bytes a, sound.bytes (a + 1)))
fetch_lem m a size (whole e) sound = simp e (
  _,
  refl,
  omega (arith, sound.bytes a, sound.bytes (a + 1), sound.bytes (a + 2), sound.bytes (a + 3)),
)

-- A store leaves the registers.
store_lem :
    (m : Machine) (a size v : ℕ)
    → IsAccess size
    → IsSound m
    → (m' : Machine) × (store m a size v ≡ some m') × IsSound m' × (m'.registers ≡ m.registers)
unfolding store
store_lem m a size v (byte e) sound =
    simp e (_, refl, put_byte-IsSound m a (v % 256) (omega arith) sound, refl)
store_lem m a size v (half e) sound = simp e (
  _,
  refl,
  put_byte-IsSound (put_byte m a (v % 256)) (a + 1) (v / 256 % 256) (omega arith)
      (put_byte-IsSound m a (v % 256) (omega arith) sound),
  refl,
)
store_lem m a size v (whole e) sound =
    let m₁ = put_byte m a (v % 256) in
    let m₂ = put_byte m₁ (a + 1) (v / 256 % 256) in
    let m₃ = put_byte m₂ (a + 2) (v / 65536 % 256) in
    let sound₁ : IsSound m₁ = put_byte-IsSound m a (v % 256) (omega arith) sound in
    let sound₂ : IsSound m₂ = put_byte-IsSound m₁ (a + 1) (v / 256 % 256) (omega arith) sound₁ in
    let sound₃ : IsSound m₃ = put_byte-IsSound m₂ (a + 2) (v / 65536 % 256) (omega arith) sound₂ in
    simp e (_, refl, put_byte-IsSound m₃ (a + 3) (v / 16777216 % 256) (omega arith) sound₃, refl)

module _ (handler : ExceptionType → Machine → Option Machine) where
  -- ReadMem: after an exception it goes on with what the handler left, if it returns; otherwise with a
  -- word and the same registers.
  pub data Reads (m : Machine) (r : Option (Option ℕ × Machine)) : Type 0 where
    interrupted :
        (e : ExceptionType) (k : Machine)
        → Stopped m k
        → r ≡ (handler e k >>= λ m'. some (none, m'))
        → Reads m r
    got :
        (v : ℕ) (m' : Machine)
        → r ≡ some (some v, m')
        → v < 2 ^ 32
        → IsSound m'
        → m'.registers ≡ m.registers
        → Reads m r

  pub data Writes (m : Machine) (r : Option (Bool × Machine)) : Type 0 where
    stopped :
        (e : ExceptionType) (k : Machine)
        → Stopped m k
        → r ≡ (handler e k >>= λ m'. some (false, m'))
        → Writes m r
    wrote :
        (m' : Machine) → r ≡ some (true, m') → IsSound m' → m'.registers ≡ m.registers → Writes m r

  module _ (m : Machine) (virt_addr size : ℕ) (small : virt_addr < 2 ^ 32) (access : IsAccess size)
      (sound : IsSound m) where
    pub read_mem-Reads : Reads m (read_mem handler m virt_addr size)
    unfolding read_mem
    read_mem-Reads = go (translate-Translates m virt_addr size false access sound.mmu)
      where
        go :
            Translates m (translate m virt_addr size false)
            → Reads m (read_mem handler m virt_addr size)
        go (raises e q) =
            let (k, at, trap) = raise_exception-Stopped handler e virt_addr m small sound in
            interrupted e k trap (rw q (rw at refl))
        go (finds a m' q keeps) =
            let sound' = Keeps-IsSound m m' keeps sound in
            let (v, at, v_small) = fetch_lem m' a size access sound' in
            got v m' (rw q (rw at refl)) v_small sound' keeps.same_registers

    pub write_mem-Writes : (v : ℕ) → Writes m (write_mem handler m virt_addr size v)
    unfolding write_mem
    write_mem-Writes v = go (translate-Translates m virt_addr size true access sound.mmu)
      where
        go :
            Translates m (translate m virt_addr size true)
            → Writes m (write_mem handler m virt_addr size v)
        go (raises e q) =
            let (k, at, trap) = raise_exception-Stopped handler e virt_addr m small sound in
            stopped e k trap (rw q (rw at refl))
        go (finds a m' q keeps) =
            let (m₂, at, sound₂, same) =
              store_lem m' a size v access (Keeps-IsSound m m' keeps sound) in
            wrote m₂ (rw q (rw at refl)) sound₂ (same ∙ keeps.same_registers)
