-- ===== src/Directory/Defs.antt =====
-- The code of code/filesys/directory.cc. Directory::List and Directory::Print only print;
-- Directory::FetchFrom and Directory::WriteBack move the table to and from a file.
use os_td_minf.Prelude.{
  ℕ, zero, suc, ◌+◌, Bool, true, false, ◌&&◌, Option, some, List, map, ℤ, pos, negsuc,
  if◌then◌else◌, ◌>>=◌, get_elem?, set,
}
use os_td_minf.Directory.Names.{Name, strncmp_eq, strncpy}

abbrev pub file_name_max_len : ℕ
file_name_max_len = 9

-- `name` is an array of `FileNameMaxLen + 1` bytes.
pub record DirectoryEntry : Type 0 where
  pub in_use : Bool
  pub sector : ℤ
  pub name : List ℕ

pub record Directory : Type 0 where
  pub table_size : ℕ
  pub table : List DirectoryEntry

-- The constructor. `memory` is what `new DirectoryEntry[size]` holds before it is written.
unfoldable pub create : ℕ → List DirectoryEntry → Directory
create size memory = record {
  table_size = size;
  table = map (λ (e : DirectoryEntry). record e { in_use = false }) memory;
}

-- The index, or -1. A read outside the table is a fault.
unfoldable pub find_index_loop : ℕ → ℕ → Directory → Name → Option ℤ
find_index_loop zero i d name = some (negsuc 0)
find_index_loop (suc k) i d name = do
  e ← get_elem? d.table i
  let rest = find_index_loop k (i + 1) d name
  if e.in_use && strncmp_eq file_name_max_len e.name name then some (pos i) else rest

unfoldable pub find_index : Directory → Name → Option ℤ
find_index d name = find_index_loop d.table_size 0 d name

-- table[i].sector for an index, -1 for -1
abbrev pub sector_or : Directory → ℤ → Option ℤ
sector_or d (pos i) = get_elem? d.table i >>= λ (e : DirectoryEntry). some e.sector
sector_or d (negsuc i) = some (negsuc 0)

unfoldable pub find : Directory → Name → Option ℤ
find d name = find_index d name >>= sector_or d

-- The entry that Add fills in; byte 9 of the name stays as it was.
abbrev pub filled : DirectoryEntry → Name → ℤ → DirectoryEntry
filled e name new_sector = record {
  in_use = true;
  sector = new_sector;
  name = strncpy file_name_max_len e.name name;
}

unfoldable pub add_loop : ℕ → ℕ → Directory → Name → ℤ → Option (Bool × Directory)
add_loop zero i d name new_sector = some (false, d)
add_loop (suc k) i d name new_sector = do
  e ← get_elem? d.table i
  let rest = add_loop k (i + 1) d name new_sector
  if e.in_use
      then rest
      else some (true, record d { table = set d.table i (filled e name new_sector) })

abbrev pub is_index : ℤ → Bool
is_index (pos i) = true
is_index (negsuc i) = false

unfoldable pub add : Directory → Name → ℤ → Option (Bool × Directory)
add d name new_sector = do
  i ← find_index d name
  let rest = add_loop d.table_size 0 d name new_sector
  if is_index i then some (false, d) else rest

-- table[i].inUse = FALSE
abbrev pub release : Directory → ℤ → Option (Bool × Directory)
release d (negsuc i) = some (false, d)
release d (pos i) = get_elem? d.table i >>= λ (e : DirectoryEntry).
    some (true, record d { table = set d.table i (record e { in_use = false }) })

unfoldable pub remove : Directory → Name → Option (Bool × Directory)
remove d name = find_index d name >>= release d
