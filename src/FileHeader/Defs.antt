-- ===== src/FileHeader/Defs.antt =====
-- code/filesys/filehdr.cc: where the data of a file is on the disk. FileHeader::Print only prints;
-- sizes and offsets are non-negative `int`s.
use os_td_minf.Prelude.{
  ℕ, zero, suc, ◌+◌, ◌-◌, ◌*◌, ◌/◌, Bool, true, false, Option, none, some, List, ℤ, ltb,
  if◌then◌else◌, ◌>>=◌, ◌>>◌, assert, get_elem?, set,
}
use os_td_minf.Bitmap.{BitMap, div_round_up, num_clear, find, test, clear}

abbrev pub sector_size : ℕ
sector_size = 128

-- (SectorSize - 2 * sizeof(int)) / sizeof(int)
abbrev pub num_direct : ℕ
num_direct = (sector_size - 2 * 4) / 4

-- `dataSectors` is an array of `num_direct` entries.
pub record FileHeader : Type 0 where
  pub num_bytes : ℕ
  pub num_sectors : ℕ
  pub data_sectors : List ℤ

-- dataSectors[i] = s, a fault outside the array
abbrev pub set_sector : FileHeader → ℕ → ℤ → Option FileHeader
set_sector h i s =
    if ltb i num_direct then some (record h { data_sectors = set h.data_sectors i s }) else none

-- dataSectors[i], a fault outside the array
abbrev pub sector_at : FileHeader → ℕ → Option ℤ
sector_at h i = get_elem? h.data_sectors i

-- for (i = i; k rounds; i++) dataSectors[i] = freeMap->Find ();
unfoldable pub allocate_loop : ℕ → ℕ → FileHeader → BitMap → Option (FileHeader × BitMap)
allocate_loop zero i h free_map = some (h, free_map)
allocate_loop (suc k) i h free_map = do
  (free_map', s) ← find free_map
  h' ← set_sector h i s
  allocate_loop k (i + 1) h' free_map'

abbrev pub sized : FileHeader → ℕ → FileHeader
sized h file_size = record h {
  num_bytes = file_size;
  num_sectors = div_round_up file_size sector_size;
}

unfoldable pub allocate : FileHeader → BitMap → ℕ → Option (Bool × FileHeader × BitMap)
allocate h free_map file_size = do
  let h' = sized h file_size
  n ← num_clear free_map
  let refused = some (false, h', free_map)
  let rest = allocate_loop h'.num_sectors 0 h' free_map >>= λ (done : FileHeader × BitMap).
      some (true, done.0, done.1)
  if ltb n h'.num_sectors then refused else rest

unfoldable pub deallocate_loop : ℕ → ℕ → FileHeader → BitMap → Option BitMap
deallocate_loop zero i h free_map = some free_map
deallocate_loop (suc k) i h free_map = do
  s ← sector_at h i
  marked ← test free_map s
  assert marked
  free_map' ← clear free_map s
  deallocate_loop k (i + 1) h free_map'

unfoldable pub deallocate : FileHeader → BitMap → Option BitMap
deallocate h free_map = deallocate_loop h.num_sectors 0 h free_map

unfoldable pub byte_to_sector : FileHeader → ℕ → Option ℤ
byte_to_sector h offset = sector_at h (offset / sector_size)

unfoldable pub file_length : FileHeader → ℕ
file_length h = h.num_bytes
