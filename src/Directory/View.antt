-- ===== src/Directory/View.antt =====
-- The map from names to header sectors that a directory stands for.
use os_td_minf.Prelude.{
  ℕ, zero, suc, ◌≡◌, refl, ◌∙◌, ◌≢◌, Bool, true, false, ◌&&◌, Option, none, some, List, [], ◌∷◌,
  map, arith, ℤ, if◌then◌else◌, length, get_elem?, set, length-map,
}
use os_td_minf.Directory.Names.{Name, c_prefix, name_eq, name_eq_iff, name_eq_refl}
use os_td_minf.Directory.Defs.{DirectoryEntry, Directory, file_name_max_len, create}

-- The nine characters that a directory keeps of a name.
abbrev pub key : Name → Name
key name = c_prefix file_name_max_len name

abbrev pub matches : DirectoryEntry → Name → Bool
matches e k = e.in_use && name_eq (key e.name) k

-- The sector under a key.
unfoldable pub sector_of : List DirectoryEntry → Name → Option ℤ
sector_of [] k = none
sector_of (e ∷ t) k = if matches e k then some e.sector else sector_of t k

abbrev pub AllNamed : List DirectoryEntry → Type 0
AllNamed [] = Unit {0}
AllNamed (e ∷ t) = (length e.name ≡ 10) × AllNamed t

-- No key stands in two entries that are in use.
abbrev pub Unique : List DirectoryEntry → Type 0
Unique [] = Unit {0}
Unique (e ∷ t) = (e.in_use ≡ true → sector_of t (key e.name) ≡ none) × Unique t

pub record IsDirectory (d : Directory) : Type 0 where
  pub size : length d.table ≡ d.table_size
  pub named : AllNamed d.table
  pub unique : Unique d.table

abbrev all_free : List DirectoryEntry → List DirectoryEntry
all_free = map (λ (e : DirectoryEntry). record e { in_use = false })

sector_of-all_free : (t : List DirectoryEntry) (k : Name) → sector_of (all_free t) k ≡ none
unfolding sector_of
sector_of-all_free [] k = refl
sector_of-all_free (e ∷ t) k = sector_of-all_free t k

Unique-all_free : (t : List DirectoryEntry) → Unique (all_free t)
Unique-all_free [] = tt
Unique-all_free (e ∷ t) = (λ h. cc, Unique-all_free t)

AllNamed-all_free : (t : List DirectoryEntry) → AllNamed t → AllNamed (all_free t)
AllNamed-all_free [] h = tt
AllNamed-all_free (e ∷ t) (h, hs) = (h, AllNamed-all_free t hs)

-- The constructor gives a directory with no file in it, whatever the allocated memory held.
pub create-IsDirectory :
    (size : ℕ) (memory : List DirectoryEntry)
    → length memory ≡ size
    → AllNamed memory
    → IsDirectory (create size memory)
      × ((k : Name) → sector_of (create size memory).table k ≡ none)
unfolding create
create-IsDirectory size memory e named = (
  record {
    size = length-map memory _ ∙ e;
    named = AllNamed-all_free memory named;
    unique = Unique-all_free memory;
  },
  sector_of-all_free memory,
)

pub AllNamed-at :
    (t : List DirectoryEntry) (i : ℕ) (e : DirectoryEntry)
    → AllNamed t
    → get_elem? t i ≡ some e
    → length e.name ≡ 10
AllNamed-at [] i e h g = cc
AllNamed-at (x ∷ t) zero e (h, hs) g = ground arith
AllNamed-at (x ∷ t) (suc i) e (h, hs) g = AllNamed-at t i e hs g

pub AllNamed-set :
    (t : List DirectoryEntry) (i : ℕ) (e : DirectoryEntry)
    → AllNamed t
    → length e.name ≡ 10
    → AllNamed (set t i e)
AllNamed-set [] i e h g = tt
AllNamed-set (x ∷ t) zero e (h, hs) g = (g, hs)
AllNamed-set (x ∷ t) (suc i) e (h, hs) g = (h, AllNamed-set t i e hs g)

-- Filling a free entry with a key that is not there adds it to the map.
pub sector_of-fill :
    (t : List DirectoryEntry) (i : ℕ) (old e : DirectoryEntry)
    → get_elem? t i ≡ some old
    → old.in_use ≡ false
    → e.in_use ≡ true
    → sector_of t (key e.name) ≡ none
    → (k : Name)
    → sector_of (set t i e) k ≡ (if name_eq (key e.name) k then some e.sector else sector_of t k)
unfolding sector_of
sector_of-fill [] i old e at free on absent k = cc
sector_of-fill (x ∷ t) zero old e at free on absent k = ground arith
sector_of-fill (x ∷ t) (suc i) old e at free on absent k = ground (
  arith,
  sector_of-fill t i old e at free on,
  sector_of-fill t i old e at free on (ground arith) k,
  name_eq_iff (key e.name) k,
  name_eq_iff (key x.name) k,
  name_eq_refl (key e.name),
)

pub Unique-fill :
    (t : List DirectoryEntry) (i : ℕ) (old e : DirectoryEntry)
    → get_elem? t i ≡ some old
    → old.in_use ≡ false
    → e.in_use ≡ true
    → sector_of t (key e.name) ≡ none
    → Unique t
    → Unique (set t i e)
unfolding sector_of
Unique-fill [] i old e at free on absent u = tt
Unique-fill (x ∷ t) zero old e at free on absent (here, u) = (λ _. ground arith, u)
Unique-fill (x ∷ t) (suc i) old e at free on absent (here, u) = (
  λ used. ground (
    arith,
    here used,
    sector_of-fill t i old e at free on (ground arith) (key x.name),
    name_eq_iff (key e.name) (key x.name),
    name_eq_refl (key e.name),
    name_eq_refl (key x.name),
  ),
  Unique-fill t i old e at free on (ground arith) u,
)

sector_of-used :
    (t : List DirectoryEntry) (i : ℕ) (e : DirectoryEntry)
    → get_elem? t i ≡ some e
    → e.in_use ≡ true
    → sector_of t (key e.name) ≢ none
unfolding sector_of
sector_of-used [] i e at on q = cc
sector_of-used (x ∷ t) zero e at on q = ground (arith, name_eq_refl (key e.name))
sector_of-used (x ∷ t) (suc i) e at on q = ground (arith, sector_of-used t i e at on)

-- Freeing the entry of a key takes the key out of the map.
pub sector_of-free :
    (t : List DirectoryEntry) (i : ℕ) (e : DirectoryEntry)
    → get_elem? t i ≡ some e
    → e.in_use ≡ true
    → Unique t
    → (k : Name)
    → sector_of (set t i (record e { in_use = false })) k
      ≡ (if name_eq (key e.name) k then none else sector_of t k)
unfolding sector_of
sector_of-free [] i e at on u k = cc
sector_of-free (x ∷ t) zero e at on (here, u) k =
    let used : x.in_use ≡ true = ground arith in
    ground (arith, here used, name_eq_iff (key x.name) k)
sector_of-free (x ∷ t) (suc i) e at on (here, u) k = ground (
  arith,
  here,
  sector_of-free t i e at on u k,
  sector_of-used t i e at on,
  name_eq_iff (key e.name) k,
  name_eq_iff (key x.name) k,
)

sector_of-none_free :
    (t : List DirectoryEntry) (i : ℕ) (e : DirectoryEntry) (k : Name)
    → sector_of t k ≡ none
    → sector_of (set t i (record e { in_use = false })) k ≡ none
unfolding sector_of
sector_of-none_free [] i e k h = refl
sector_of-none_free (x ∷ t) zero e k h = ground arith
sector_of-none_free (x ∷ t) (suc i) e k h = ground (arith, sector_of-none_free t i e k)

pub Unique-free :
    (t : List DirectoryEntry) (i : ℕ) (e : DirectoryEntry)
    → Unique t
    → Unique (set t i (record e { in_use = false }))
Unique-free [] i e u = tt
Unique-free (x ∷ t) zero e (here, u) = (λ h. cc, u)
Unique-free (x ∷ t) (suc i) e (here, u) =
    (λ used. sector_of-none_free t i e (key x.name) (here used), Unique-free t i e u)
