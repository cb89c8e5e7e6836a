-- ===== src/Machine/ReadWrite.antt =====
-- Machine::WriteMem followed by Machine::ReadMem, and addresses of one page table kept apart.
use os_td_minf.Prelude.{
  ℕ, zero, suc, ◌+◌, ◌/◌, ◌%◌, ◌^◌, ◌≤◌, ◌<◌, ◌≡◌, refl, sym, ap, subst, ◌∙◌, inl, inr, Bool, true,
  false, Option, none, some, List, [], ◌∷◌, arith, ◌==◌, if◌then◌else◌, Option-cases, ◌>>=◌,
  get_elem?, set, length-set,
}
use os_td_minf.Machine.Defs.{
  Machine, TranslationEntry, ExceptionType, page_size, memory_size, num_phys_pages,
}
use os_td_minf.Machine.Translation.{Translated, raised, physical, misaligned, store_page, translate}
use os_td_minf.Machine.Memory.{
  finish_write, finish_read, put_byte, fetch, store, read_mem, write_mem, sign_extend_byte,
  raise_exception,
}
use os_td_minf.Machine.Bounds.{
  IsAccess, byte, half, whole, Paged, PageOutcome, unaligned, beyond, invalid, through, read_only,
  bad_frame, mapped, address, touched, translate-PageOutcome,
}

-- A translation that succeeded, taken apart.
pub record Through (m : Machine) (table : List TranslationEntry) (virt_addr size : ℕ)
    (writing : Bool) (p : ℕ) (m' : Machine) : Type 0 where
  pub entry : TranslationEntry
  pub aligned : misaligned virt_addr size ≡ false
  pub inside : virt_addr / page_size < m.page_table_size
  pub at : get_elem? table (virt_addr / page_size) ≡ some entry
  pub valid : entry.valid ≡ true
  pub frame : entry.physical_page < num_phys_pages
  pub goes_to : p ≡ address entry virt_addr
  pub within : p + size ≤ memory_size
  pub after : m' ≡ store_page m table (virt_addr / page_size) (touched entry writing)

module _ (m : Machine) (table : List TranslationEntry) (virt_addr size : ℕ) (writing : Bool) (p : ℕ)
    (m' : Machine) where
  UsesEntry-Through :
      (r : Option (Translated × Machine))
      → PageOutcome m table virt_addr size writing r
      → r ≡ some (physical p, m')
      → Through m table virt_addr size writing p m'
  UsesEntry-Through r (unaligned bad e) q = cc
  UsesEntry-Through r (beyond good far e) q = cc
  UsesEntry-Through r (invalid x good low at stale e) q = cc
  UsesEntry-Through r (through x good near at valid (read_only a b e)) q = cc
  UsesEntry-Through r (through x good near at valid (bad_frame a b e)) q = cc
  UsesEntry-Through r (through x good near at valid (mapped a b c e)) q =
      let same : p ≡ address x virt_addr = cc in
      record {
        entry = x;
        aligned = good;
        inside = near;
        at = at;
        valid = valid;
        frame = b;
        goes_to = same;
        within = omega arith;
        after = cc;
      }

  pub translate-Through :
      Paged m table
      → IsAccess size
      → translate m virt_addr size writing ≡ some (physical p, m')
      → Through m table virt_addr size writing p m'
  translate-Through paged access q =
      UsesEntry-Through _ (translate-PageOutcome m table virt_addr size writing paged access) q

-- Valid pages have frames of their own.
abbrev pub FramesApart : List TranslationEntry → Type 0
FramesApart table =
    (i j : ℕ) (e f : TranslationEntry)
    → get_elem? table i ≡ some e
    → get_elem? table j ≡ some f
    → e.valid ≡ true
    → f.valid ≡ true
    → e.physical_page ≡ f.physical_page
    → i ≡ j

-- When valid pages have frames of their own, two virtual addresses that Machine::Translate takes to
-- one physical address are one address.
pub translate_injective :
    (m : Machine) (table : List TranslationEntry) (a b size size' : ℕ) (writing writing' : Bool)
    (p : ℕ) (m₁ m₂ : Machine)
    → Paged m table
    → FramesApart table
    → IsAccess size
    → IsAccess size'
    → translate m a size writing ≡ some (physical p, m₁)
    → translate m b size' writing' ≡ some (physical p, m₂)
    → a ≡ b
translate_injective m table a b size size' writing writing' p m₁ m₂ paged apart access access' q
      q' =
    let s = translate-Through m table a size writing p m₁ paged access q in
    let t = translate-Through m table b size' writing' p m₂ paged access' q' in
    let frames : s.entry.physical_page ≡ t.entry.physical_page =
      omega (arith, s.goes_to, t.goes_to) in
    omega (
      arith,
      s.goes_to,
      t.goes_to,
      apart (a / page_size) (b / page_size) s.entry t.entry s.at t.at s.valid t.valid frames,
    )

-- What a read of `size` bytes gives after a write of `value`: for one byte, sign-extended.
abbrev pub stored : ℕ → ℕ → ℕ
stored size value =
    if size == 1 then sign_extend_byte (value % 256) else if size == 2 then value % 65536 else value

fetch-store :
    (m : Machine) (a size value : ℕ)
    → IsAccess size
    → value < 2 ^ 32
    → (m' : Machine) × (store m a size value ≡ some m')
      × (fetch m' a size ≡ some (stored size value))
      × (m'.page_table ≡ m.page_table)
      × (m'.tlb ≡ m.tlb)
      × (m'.page_table_size ≡ m.page_table_size)
unfolding fetch store
fetch-store m a size value (byte e) lt =
    (put_byte m a (value % 256), ground arith, ground arith, refl, refl, refl)
fetch-store m a size value (half e) lt = (
  put_byte (put_byte m a (value % 256)) (a + 1) (value / 256 % 256),
  ground arith,
  ground arith,
  refl,
  refl,
  refl,
)
fetch-store m a size value (whole e) lt = (
  put_byte
      (put_byte (put_byte (put_byte m a (value % 256)) (a + 1) (value / 256 % 256)) (a + 2)
        (value / 65536 % 256))
      (a + 3) (value / 16777216 % 256),
  ground arith,
  ground arith,
  refl,
  refl,
  refl,
)

-- A translation through a given valid entry succeeds.
translate_again :
    (m : Machine) (table : List TranslationEntry) (virt_addr size : ℕ) (e : TranslationEntry)
    → Paged m table
    → IsAccess size
    → misaligned virt_addr size ≡ false
    → virt_addr / page_size < m.page_table_size
    → get_elem? table (virt_addr / page_size) ≡ some e
    → e.valid ≡ true
    → e.physical_page < num_phys_pages
    → (m' : Machine) × (translate m virt_addr size false
        ≡ some (physical (address e virt_addr), m'))
      × (m'.main_memory ≡ m.main_memory)
translate_again m table virt_addr size e paged access good near at valid frame =
    go _ (translate-PageOutcome m table virt_addr size false paged access)
  where
    go :
        (r : Option (Translated × Machine))
        → PageOutcome m table virt_addr size false r
        → (m' : Machine) × (r ≡ some (physical (address e virt_addr), m'))
          × (m'.main_memory ≡ m.main_memory)
    go r (unaligned bad q) = cc
    go r (beyond good far q) = absurd (omega arith)
    go r (invalid x good low at' stale q) = ground arith
    go r (through x _ _ at' _ (read_only a b q)) = cc
    go r (through x _ _ at' _ (bad_frame a b q)) =
        let same : x ≡ e = cc in
        absurd (omega (arith, ap (λ (t : TranslationEntry). t.physical_page) same))
    go r (through x _ _ at' _ (mapped a b c q)) =
        let same : x ≡ e = cc in
        (
          store_page m table (virt_addr / page_size) (touched x false),
          q
              ∙ ap
                  (λ (t : TranslationEntry). some (
                    physical (address t virt_addr),
                    store_page m table (virt_addr / page_size) (touched x false),
                  ))
                  same,
          refl,
        )

set-inside {ℓ} :
    {A : Type ℓ} (xs : List A) (i : ℕ) (x y : A)
    → get_elem? xs i ≡ some x
    → get_elem? (set xs i y) i ≡ some y
set-inside [] i x y e = cc
set-inside (z ∷ xs) zero x y e = refl
set-inside (z ∷ xs) (suc i) x y e = set-inside xs i x y e

fetch-memory :
    (m n : Machine) (a size : ℕ) → n.main_memory ≡ m.main_memory → fetch n a size ≡ fetch m a size
unfolding fetch
fetch-memory m n a size e = ap (λ (mem : ℕ → ℕ). fetch (record m { main_memory = mem }) a size) e

module _ (exception_handler : ExceptionType → Machine → Option Machine) where
  -- A write that was done, taken apart.
  write_mem-done :
      (r : Option (Translated × Machine)) (virt_addr size value : ℕ) (m' : Machine)
      → (r >>= finish_write exception_handler virt_addr size value) ≡ some (true, m')
      → (p : ℕ) × (m₁ : Machine) × (r ≡ some (physical p, m₁)) × (store m₁ p size value ≡ some m')
  write_mem-done none virt_addr size value m' q = cc
  write_mem-done (some (raised e, m)) virt_addr size value m' q =
      elim (Option-cases (raise_exception exception_handler e virt_addr m)) [
        | inl n ↦ cc
        | inr (x, n) ↦ cc
      ]
  write_mem-done (some (physical p, m)) virt_addr size value m' q =
      elim (Option-cases (store m p size value)) [ inl n ↦ cc | inr (x, n) ↦ (p, m, refl, cc) ]

  -- What Machine::WriteMem wrote is what Machine::ReadMem of the same size reads there next: the low
  -- bytes of the value, a single byte sign-extended.
  pub read_mem-write_mem :
      (m : Machine) (table : List TranslationEntry) (virt_addr size value : ℕ) (m' : Machine)
      → Paged m table
      → IsAccess size
      → value < 2 ^ 32
      → write_mem exception_handler m virt_addr size value ≡ some (true, m')
      → (m'' : Machine) × (read_mem exception_handler m' virt_addr size
          ≡ some (some (stored size value), m''))
  unfolding write_mem read_mem
  read_mem-write_mem m table virt_addr size value m' paged access lt q =
      let (p, m₁, tr, st) =
        write_mem-done (translate m virt_addr size true) virt_addr size value m' q in
      let t = translate-Through m table virt_addr size true p m₁ paged access tr in
      let (m₂, st₂, got, same_table, same_tlb, same_size) = fetch-store m₁ p size value access lt in
      let is_m₂ : m₂ ≡ m' = cc in
      let table' = set table (virt_addr / page_size) (touched t.entry true) in
      let size' : m₂.page_table_size ≡ m.page_table_size =
        same_size ∙ ap (λ (x : Machine). x.page_table_size) t.after in
      let paged' : Paged m₂ table' = record {
        no_tlb = same_tlb ∙ ap (λ (x : Machine). x.tlb) t.after ∙ paged.no_tlb;
        is_table = same_table ∙ ap (λ (x : Machine). x.page_table) t.after;
        room = omega (
          arith,
          size',
          paged.room,
          length-set {0} table (virt_addr / page_size) (touched t.entry true),
        );
      } in
      let (m₃, again, memory) =
        translate_again m₂ table' virt_addr size (touched t.entry true) paged' access t.aligned
          (omega (arith, size', t.inside)) (set-inside table (virt_addr / page_size) t.entry _ t.at)
          t.valid t.frame in
      let reads : fetch m₃ (address t.entry virt_addr) size ≡ some (stored size value) =
        fetch-memory m₂ m₃ _ size memory ∙ ap (λ a. fetch m₂ a size) (sym t.goes_to) ∙ got in
      (
        m₃,
        subst
            (λ x.
              (translate x virt_addr size false >>= finish_read exception_handler virt_addr size)
              ≡ some (some (stored size value), m₃))
            is_m₂ (rw (again, reads)),
      )
