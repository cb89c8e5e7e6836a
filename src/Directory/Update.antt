-- ===== src/Directory/Update.antt =====
-- Directory::Add and Directory::Remove against the map that the directory stands for.
use os_td_minf.Prelude.{
  ℕ, ◌+◌, ◌≡◌, refl, subst, ◌∙◌, inl, inr, Bool, true, false, Option, none, some, List, [], ◌∷◌,
  arith, ℤ, if◌then◌else◌, Bool-cases, length, get_elem?, set, length-set,
}
use os_td_minf.Directory.Names.{Name, name_eq, name_eq_iff, c_prefix-strncpy, length-strncpy}
use os_td_minf.Directory.Defs.{DirectoryEntry, Directory, find_index, filled, add_loop, add, remove}
use os_td_minf.Directory.View.{
  key, sector_of, IsDirectory, AllNamed-at, AllNamed-set, sector_of-fill, Unique-fill,
  sector_of-free, Unique-free,
}
use os_td_minf.Directory.Search.{
  Suffix, Suffix-head, Suffix-tail, Suffix-whole, Finds, missing, found, find_index-Finds,
}

-- Every entry is in use.
abbrev pub Full : List DirectoryEntry → Type 0
Full [] = Unit {0}
Full (e ∷ t) = (e.in_use ≡ true) × Full t

data Fills (d : Directory) (t : List DirectoryEntry) (name : Name) (s : ℤ)
    (r : Option (Bool × Directory)) : Type 0 where
  crowded : r ≡ some (false, d) → Full t → Fills d t name s r
  fills :
      (i : ℕ) (old : DirectoryEntry)
      → get_elem? d.table i ≡ some old
      → old.in_use ≡ false
      → r ≡ some (true, record d { table = set d.table i (filled old name s) })
      → Fills d t name s r

Fills-skip :
    (d : Directory) (t : List DirectoryEntry) (e : DirectoryEntry) (name : Name) (s : ℤ)
    (r : Option (Bool × Directory))
    → e.in_use ≡ true
    → Fills d t name s r
    → Fills d (e ∷ t) name s r
Fills-skip d t e name s r used (crowded q all) = crowded q (used, all)
Fills-skip d t e name s r used (fills i old at free q) = fills i old at free q

add_loop-Fills :
    (t : List DirectoryEntry) (i : ℕ) (d : Directory) (name : Name) (s : ℤ)
    → Suffix d.table i t
    → Fills d t name s (add_loop (length t) i d name s)
unfolding add_loop
add_loop-Fills [] i d name s here = crowded refl tt
add_loop-Fills (e ∷ t) i d name s here =
    rw (Suffix-head d.table i e t here) (elim (Bool-cases e.in_use) [
      | inl used ↦ simp used (
          Fills-skip d t e name s _ used
            (add_loop-Fills t (i + 1) d name s (Suffix-tail d.table i e t here)))
      | inr free ↦ simp free (fills i e (Suffix-head d.table i e t here) free refl)
    ])

-- What Directory::Add may do for a name and a sector.
pub data Adds (d : Directory) (name : Name) (s : ℤ) (r : Option (Bool × Directory)) : Type 0 where
  present :
      (s₀ : ℤ) → sector_of d.table (key name) ≡ some s₀ → r ≡ some (false, d) → Adds d name s r
  no_space :
      sector_of d.table (key name) ≡ none → Full d.table → r ≡ some (false, d) → Adds d name s r
  added :
      (d' : Directory)
      → r ≡ some (true, d')
      → sector_of d.table (key name) ≡ none
      → IsDirectory d'
      → ((k : Name)
          → sector_of d'.table k ≡ (if name_eq (key name) k then some s else sector_of d.table k))
      → Adds d name s r

key-filled :
    (old : DirectoryEntry) (name : Name) (s : ℤ)
    → length old.name ≡ 10
    → key (filled old name s).name ≡ key name
key-filled old name s ten = c_prefix-strncpy 9 old.name name (omega arith)

add_free :
    (d : Directory) (name : Name) (s : ℤ) (i : ℕ) (old : DirectoryEntry)
    → IsDirectory d
    → sector_of d.table (key name) ≡ none
    → get_elem? d.table i ≡ some old
    → old.in_use ≡ false
    → let d' = record d { table = set d.table i (filled old name s) } in
      IsDirectory d'
      × ((k : Name)
          → sector_of d'.table k ≡ (if name_eq (key name) k then some s else sector_of d.table k))
add_free d name s i old is absent at free =
    let e = filled old name s in
    let ten : length old.name ≡ 10 = AllNamed-at d.table i old is.named at in
    let same : key e.name ≡ key name = key-filled old name s ten in
    let out : sector_of d.table (key e.name) ≡ none = rw same absent in
    (
      record {
        size = length-set d.table i e ∙ is.size;
        named = AllNamed-set d.table i e is.named (length-strncpy 9 old.name name ∙ ten);
        unique = Unique-fill d.table i old e at free refl out is.unique;
      },
      λ k.
          subst
            (λ n.
              sector_of (set d.table i e) k ≡ (if name_eq n k then some s else sector_of d.table k))
            same (sector_of-fill d.table i old e at free refl out k),
    )

-- Directory::Add refuses a name that agrees with one in the directory in the first nine
-- characters, and a full directory, and changes nothing then. Otherwise it adds the name with its
-- sector to the directory's map and touches no other name; names stay unique.
pub add-Adds : (d : Directory) (name : Name) (s : ℤ) → IsDirectory d → Adds d name s (add d name s)
unfolding add
add-Adds d name s is = go (find_index-Finds d name is.size)
  where
    go₂ :
        sector_of d.table (key name) ≡ none
        → Fills d d.table name s (add_loop d.table_size 0 d name s)
        → Adds d name s (add_loop d.table_size 0 d name s)
    go₂ out (crowded q all) = no_space out all q
    go₂ out (fills i old at free q) =
        let (v, m) = add_free d name s i old is out at free in added _ q out v m

    go : Finds d.table d.table name (find_index d name) → Adds d name s (add d name s)
    go (missing q out) =
        rw (q, add)
          (go₂ out (
            subst (λ n. Fills d d.table name s (add_loop n 0 d name s)) is.size
              (add_loop-Fills d.table 0 d name s (Suffix-whole d.table))))
    go (found i e q at on same sec) = rw (q, add) (present e.sector sec refl)

-- What Directory::Remove may do for a name.
pub data Removes (d : Directory) (name : Name) (r : Option (Bool × Directory)) : Type 0 where
  absent : sector_of d.table (key name) ≡ none → r ≡ some (false, d) → Removes d name r
  removed :
      (s : ℤ) (d' : Directory)
      → r ≡ some (true, d')
      → sector_of d.table (key name) ≡ some s
      → IsDirectory d'
      → ((k : Name)
          → sector_of d'.table k ≡ (if name_eq (key name) k then none else sector_of d.table k))
      → Removes d name r

-- Directory::Remove refuses a name that is not in the directory, and otherwise takes that name,
-- and no other, out of the directory's map.
pub remove-Removes : (d : Directory) (name : Name) → IsDirectory d → Removes d name (remove d name)
unfolding remove
remove-Removes d name is = go (find_index-Finds d name is.size)
  where
    go : Finds d.table d.table name (find_index d name) → Removes d name (remove d name)
    go (missing q out) = rw (q, remove) (absent out refl)
    go (found i e q at on same sec) =
        let free = record e { in_use = false } in
        let ten : length e.name ≡ 10 = AllNamed-at d.table i e is.named at in
        let keys : key e.name ≡ key name = (name_eq_iff (key e.name) (key name)).0 same in
        rw (q, remove, at)
          (removed e.sector (record d { table = set d.table i free }) refl sec
            (record {
              size = length-set d.table i free ∙ is.size;
              named = AllNamed-set d.table i free is.named ten;
              unique = Unique-free d.table i e is.unique;
            })
            λ k.
              subst
                (λ n.
                  sector_of (set d.table i free) k
                  ≡ (if name_eq n k then none else sector_of d.table k))
                keys (sector_of-free d.table i e at on is.unique k))
