-- ===== src/Directory/Search.antt =====
-- Directory::FindIndex and Directory::Find against the map that the directory stands for.
use os_td_minf.Prelude.{
  subst, ℕ, suc, ◌+◌, ◌≡◌, refl, ap, ◌∙◌, inl, inr, true, false, Option, none, some, List, [], ◌∷◌,
  arith, ℤ, pos, negsuc, Bool-cases, ◌>>=◌, length, get_elem?,
}
use os_td_minf.Directory.Names.{Name, name_eq, strncmp_eq-prefix}
use os_td_minf.Directory.Defs.{
  DirectoryEntry, Directory, find_index_loop, find_index, find, sector_or,
}
use os_td_minf.Directory.View.{key, sector_of, IsDirectory, matches}

-- `t` is what the table holds from index `i` on.
abbrev pub Suffix : List DirectoryEntry → ℕ → List DirectoryEntry → Type 0
Suffix table i t = (j : ℕ) → get_elem? table (i + j) ≡ get_elem? t j

pub Suffix-head :
    (table : List DirectoryEntry) (i : ℕ) (e : DirectoryEntry) (t : List DirectoryEntry)
    → Suffix table i (e ∷ t)
    → get_elem? table i ≡ some e
Suffix-head table i e t h = ap (get_elem? table) (omega arith) ∙ h 0

pub Suffix-tail :
    (table : List DirectoryEntry) (i : ℕ) (e : DirectoryEntry) (t : List DirectoryEntry)
    → Suffix table i (e ∷ t)
    → Suffix table (i + 1) t
Suffix-tail table i e t h j = ap (get_elem? table) (omega arith) ∙ h (suc j)

pub Suffix-whole : (table : List DirectoryEntry) → Suffix table 0 table
Suffix-whole table j = ap (get_elem? table) (omega arith)

-- What FindIndex may return: -1 for a name that is not in the map, or the index of the entry in use
-- that holds the name.
pub data Finds (table t : List DirectoryEntry) (name : Name) (r : Option ℤ) : Type 0 where
  missing : r ≡ some (negsuc 0) → sector_of t (key name) ≡ none → Finds table t name r
  found :
      (i : ℕ) (e : DirectoryEntry)
      → r ≡ some (pos i)
      → get_elem? table i ≡ some e
      → e.in_use ≡ true
      → name_eq (key e.name) (key name) ≡ true
      → sector_of t (key name) ≡ some e.sector
      → Finds table t name r

Finds-skip :
    (table t : List DirectoryEntry) (e : DirectoryEntry) (name : Name) (r : Option ℤ)
    → matches e (key name) ≡ false
    → Finds table t name r
    → Finds table (e ∷ t) name r
unfolding sector_of
Finds-skip table t e name r miss (missing q out) = missing q (ground arith)
Finds-skip table t e name r miss (found i x q at on same sec) =
    found i x q at on same (ground arith)

find_index_loop-Finds :
    (t : List DirectoryEntry) (i : ℕ) (d : Directory) (name : Name)
    → Suffix d.table i t
    → Finds d.table t name (find_index_loop (length t) i d name)
unfolding find_index_loop sector_of
find_index_loop-Finds [] i d name here = missing refl refl
find_index_loop-Finds (e ∷ t) i d name here =
    rw (Suffix-head d.table i e t here, strncmp_eq-prefix 9 e.name name)
      (elim (Bool-cases (matches e (key name))) [
        | inl hit ↦ rw hit (
            found i e refl (Suffix-head d.table i e t here) (ground arith) (ground arith)
              (ground arith))
        | inr miss ↦ rw miss (
            Finds-skip d.table t e name _ miss
              (find_index_loop-Finds t (i + 1) d name (Suffix-tail d.table i e t here)))
      ])

-- Directory::FindIndex finds the entry in use whose name agrees in the first nine characters, and
-- reads only inside the table.
pub find_index-Finds :
    (d : Directory) (name : Name)
    → length d.table ≡ d.table_size
    → Finds d.table d.table name (find_index d name)
unfolding find_index
find_index-Finds d name e =
    subst (λ n. Finds d.table d.table name (find_index_loop n 0 d name)) e
      (find_index_loop-Finds d.table 0 d name (Suffix-whole d.table))

-- The sector, or -1.
abbrev pub or_minus_one : Option ℤ → ℤ
or_minus_one none = negsuc 0
or_minus_one (some s) = s

-- Directory::Find returns the sector that the directory's map has for the name, -1 if it has none.
pub find_lem :
    (d : Directory) (name : Name)
    → IsDirectory d
    → find d name ≡ some (or_minus_one (sector_of d.table (key name)))
unfolding find
find_lem d name is = go (find_index-Finds d name is.size)
  where
    go :
        Finds d.table d.table name (find_index d name)
        → (find_index d name >>= sector_or d) ≡ some (or_minus_one (sector_of d.table (key name)))
    go (missing q out) = rw (q, out)
    go (found i e q at on same sec) = rw (q, sec, at)
