-- ===== src/Directory/Tests.antt =====
-- Runs of the directory's code, and its theorems at a directory of three entries.
use os_td_minf.Prelude.{◌≡◌, refl, true, false, none, some, [], ◌∷◌, ◌++◌, pos, negsuc, replicate}
use os_td_minf.Directory.Names.{Name, strncmp_eq, strncpy}
use os_td_minf.Directory.Defs.{
  DirectoryEntry, Directory, create, find_index_loop, find_index, find, add_loop, add, remove,
}
use os_td_minf.Directory.View.{key, sector_of, IsDirectory, create-IsDirectory}
use os_td_minf.Directory.Search.{Finds, find_index-Finds, find_lem, or_minus_one}
use os_td_minf.Directory.Update.{Adds, add-Adds, Removes, remove-Removes}

abbrev blank : DirectoryEntry
blank = record { in_use = true; sector = pos 9; name = replicate 10 7 }

abbrev empty : Directory
empty = record { table_size = 2; table = replicate 2 (record blank { in_use = false }) }

-- "abc"
abbrev abc : Name
abc = b'a' ∷ b'b' ∷ b'c' ∷ []

-- ten characters, of which a directory keeps nine
abbrev long : Name
long = replicate 9 b'x' ++ b'1' ∷ []

abbrev long' : Name
long' = replicate 9 b'x' ++ b'2' ∷ []

abbrev one : Directory
one = record {
  table_size = 2;
  table =
      record {
        in_use = true;
        sector = pos 5;
        name = b'a' ∷ b'b' ∷ b'c' ∷ 0 ∷ 0 ∷ 0 ∷ 0 ∷ 0 ∷ 0 ∷ 7 ∷ [];
      }
      ∷ record blank { in_use = false }
      ∷ [];
}

create_runs : create 2 (replicate 2 blank) ≡ empty
unfolding create
create_runs = refl

add_runs : add empty abc (pos 5) ≡ some (true, one)
unfolding add find_index find_index_loop add_loop strncmp_eq strncpy
add_runs = refl

find_runs : (find one abc ≡ some (pos 5)) × (find one long ≡ some (negsuc 0))
unfolding find find_index find_index_loop strncmp_eq
find_runs = (refl, refl)

remove_runs : remove one long ≡ some (false, one)
unfolding remove find_index find_index_loop strncmp_eq
remove_runs = refl

-- Names that differ after nine characters are one name to a directory.
long_names : strncmp_eq 9 long long' ≡ true
unfolding strncmp_eq
long_names = refl

one-IsDirectory : IsDirectory one
unfolding sector_of
one-IsDirectory = record {
  size = refl;
  named = (refl, (refl, tt));
  unique = (λ h. refl, (λ h. refl, tt));
}

create-IsDirectory_example :
    IsDirectory (create 2 (replicate 2 blank))
    × ((k : Name) → sector_of (create 2 (replicate 2 blank)).table k ≡ none)
create-IsDirectory_example = create-IsDirectory 2 (replicate 2 blank) refl (refl, (refl, tt))

find_index-Finds_example : Finds one.table one.table abc (find_index one abc)
find_index-Finds_example = find_index-Finds one abc refl

find_lem_example : find one abc ≡ some (or_minus_one (sector_of one.table (key abc)))
find_lem_example = find_lem one abc one-IsDirectory

add-Adds_example : Adds one long (pos 6) (add one long (pos 6))
add-Adds_example = add-Adds one long (pos 6) one-IsDirectory

remove-Removes_example : Removes one abc (remove one abc)
remove-Removes_example = remove-Removes one abc one-IsDirectory
