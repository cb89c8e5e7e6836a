-- ===== src/AddrSpace/Identity.antt =====
-- The page table that the constructor makes.
use os_td_minf.Prelude.{
  ℕ, zero, suc, ◌+◌, ◌≤◌, ◌<◌, ◌≡◌, refl, sym, ap, subst, ◌∙◌, ◌⊎◌, inl, inr, Bool, true, false,
  Option, none, some, List, [], ◌∷◌, arith, ltb, ◌==◌, if◌then◌else◌, Bool-cases, ◌>>=◌, assert,
  length, get_elem?,
}
use os_td_minf.Machine.{Machine, TranslationEntry, num_phys_pages}
use os_td_minf.AddrSpace.Defs.{
  Executable, NoffHeader, AddrSpace, Created, bad_alloc, space, read_header, load_segment,
  identity_entry, identity_table, pages_of, without_page_0, load_program, create, noff_magic_number,
}

-- Frame i for page i, but that page 0 is not valid.
pub record Identity (a : AddrSpace) : Type 0 where
  pub many : length a.page_table ≡ a.num_pages
  pub fits : a.num_pages ≤ num_phys_pages
  pub page_0 : (e : TranslationEntry) → get_elem? a.page_table 0 ≡ some e → e.valid ≡ false
  pub pages :
      (i : ℕ) (e : TranslationEntry)
      → 0 < i
      → get_elem? a.page_table i ≡ some e
      → (e.physical_page ≡ i) × (e.valid ≡ true) × (e.read_only ≡ false)

some-inj : {A : Type 0} {x y : A} → some x ≡ some y → x ≡ y
some-inj {x = x} e = ap (λ o. elim o [ none ↦ x | some z ↦ z ]) e

bind-some :
    {A B : Type 0} (m : Option A) (f : A → Option B) {b : B}
    → (m >>= f) ≡ some b
    → (a : A) × (m ≡ some a) × (f a ≡ some b)
bind-some none f e = cc
bind-some (some a) f e = (a, refl, e)

length-identity_table : (unset : ℕ → ℕ) (k i : ℕ) → length (identity_table unset k i) ≡ k
length-identity_table unset zero i = refl
length-identity_table unset (suc k) i = ap suc (length-identity_table unset k (i + 1))

identity_table_lem :
    (unset : ℕ → ℕ) (k i j : ℕ) (e : TranslationEntry)
    → get_elem? (identity_table unset k i) j ≡ some e
    → e ≡ identity_entry unset (i + j)
identity_table_lem unset zero i j e h = cc
identity_table_lem unset (suc k) i zero e h =
    sym (some-inj h) ∙ ap (identity_entry unset) (omega arith)
identity_table_lem unset (suc k) i (suc j) e h =
    identity_table_lem unset k (i + 1) j e h ∙ ap (identity_entry unset) (omega arith)

made-Identity :
    (unset : ℕ → ℕ) (k : ℕ) (table : List TranslationEntry)
    → k ≤ num_phys_pages
    → without_page_0 (identity_table unset k 0) ≡ some table
    → Identity (record { page_table = table; num_pages = k })
made-Identity unset zero table fits h = cc
made-Identity unset (suc k) table fits h =
    let is = some-inj h in
    subst (λ t. Identity (record { page_table = t; num_pages = suc k })) is
      record {
        many = ap suc (length-identity_table unset k 1);
        fits = fits;
        page_0 = λ e at. ap (λ x. x.valid) (sym (some-inj at));
        pages = λ i e above at. page i e above at;
      }
  where
    page :
        (i : ℕ) (e : TranslationEntry)
        → 0 < i
        → get_elem?
            (record (identity_entry unset 0) { valid = false } ∷ identity_table unset k (0 + 1))
            i
          ≡ some e
        → (e.physical_page ≡ i) × (e.valid ≡ true) × (e.read_only ≡ false)
    page zero e above at = absurd (omega arith)
    page (suc i) e above at =
        let is = identity_table_lem unset k (0 + 1) i e at in
        (ap (λ x. x.physical_page) is ∙ omega arith, ap (λ x. x.valid) is, ap (λ x. x.read_only) is)

abbrev table_of : Created → AddrSpace
table_of bad_alloc = record { page_table = []; num_pages = 0 }
table_of (space a m) = a

abbrev is_space : Created → Bool
is_space bad_alloc = false
is_space (space a m) = true

-- A space as it shall be, of as many pages as the header asks for.
abbrev pub Made : AddrSpace → NoffHeader → Type 0
Made a h = Identity a × (a.num_pages ≡ pages_of h)

load_program-Identity :
    (unset : ℕ → ℕ) (executable : Executable) (h : NoffHeader) (m : Machine) (a : AddrSpace)
    (m' : Machine)
    → pages_of h ≤ num_phys_pages
    → load_program unset executable h m ≡ some (space a m')
    → Made a h
unfolding load_program
load_program-Identity unset executable h m a m' fits made =
    let (m₁, code_loaded, rest₁) = bind-some (load_segment executable h.code m) _ made in
    let (m₂, data_loaded, rest₂) = bind-some (load_segment executable h.init_data m₁) _ rest₁ in
    let (table, is, rest₃) =
      bind-some (without_page_0 (identity_table unset (pages_of h) 0)) _ rest₂ in
    subst (λ b. Made b h) (ap table_of (some-inj rest₃))
      (made-Identity unset (pages_of h) table fits is, refl)

pub create-Made :
    (unset : ℕ → ℕ) (executable : Executable) (m : Machine) (a : AddrSpace) (m' : Machine)
    → create unset executable m ≡ some (space a m')
    → Made a (read_header unset executable)
unfolding create
create-Made unset executable m a m' made =
    let h = read_header unset executable in
    let (u, ok, rest) = bind-some (assert (h.noff_magic == noff_magic_number)) _ made in
    small (Bool-cases (ltb num_phys_pages (pages_of h))) rest
  where
    small :
        (ltb num_phys_pages (pages_of (read_header unset executable)) ≡ true)
          ⊎ (ltb num_phys_pages (pages_of (read_header unset executable)) ≡ false)
        → (if ltb num_phys_pages (pages_of (read_header unset executable))
            then some bad_alloc
            else load_program unset executable (read_header unset executable) m)
          ≡ some (space a m')
        → Made a (read_header unset executable)
    small (inl big) rest =
        let e : some bad_alloc ≡ some (space a m') =
          ap
            (λ b.
              if b
              then some bad_alloc
              else load_program unset executable (read_header unset executable) m)
            (sym big)
          ∙ rest in
        ground (arith, ap is_space (some-inj e))
    small (inr few) rest =
        load_program-Identity unset executable (read_header unset executable) m a m'
          (ground (arith, few))
          (ap
              (λ b.
                if b
                then some bad_alloc
                else load_program unset executable (read_header unset executable) m)
              (sym few)
            ∙ rest)
