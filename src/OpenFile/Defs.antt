-- ===== src/OpenFile/Defs.antt =====
-- code/filesys/openfile.cc, over the disk. A position and a count are non-negative `int`s. What `new`
-- leaves in an array of bytes is an argument, `unset`.
use os_td_minf.Prelude.{
  ℕ, zero, suc, ◌+◌, ◌-◌, ◌*◌, ◌/◌, Bool, not, ◌&&◌, ◌||◌, Option, some, ltb, leb, ◌==◌,
  if◌then◌else◌, ◌>>=◌, length,
}
use os_td_minf.FileHeader.{FileHeader, sector_size, byte_to_sector, file_length}
use os_td_minf.Disk.Defs.{HostFile, Buffer, bcopy, Disk, read_sector, write_sector}

-- The header is in memory while the file is open.
pub record OpenFile : Type 0 where
  pub hdr : FileHeader
  pub seek_position : ℕ

unfoldable pub seek : ℕ → OpenFile → OpenFile
seek position f = record f { seek_position = position }

unfoldable pub file_size : OpenFile → ℕ
file_size f = file_length f.hdr

-- As many bytes as there are up to the end of the file.
abbrev pub request : ℕ → ℕ → ℕ → ℕ
request num_bytes position length =
    if ltb length (position + num_bytes) then length - position else num_bytes

abbrev pub new_buffer : (ℕ → ℕ) → ℕ → Buffer
new_buffer unset n = record { size = n; bytes = unset }

-- if (condition) act
abbrev pub when : {A : Type 0} → Bool → A → (A → Option A) → Option A
when condition a act = let acted = act a in if condition then acted else some a

module _ {F : Type 0} (host : HostFile F) (clock : Disk F → ℕ) (unset : ℕ → ℕ) where
  -- for (i = i; k rounds; i++)
  unfoldable pub read_sectors : ℕ → ℕ → ℕ → FileHeader → Buffer → Disk F → Option (Buffer × Disk F)
  read_sectors zero i first_sector hdr buf d = some (buf, d)
  read_sectors (suc k) i first_sector hdr buf d = do
    sector ← byte_to_sector hdr (i * sector_size)
    (buf', d') ← read_sector host clock sector buf ((i - first_sector) * sector_size) d
    read_sectors k (i + 1) first_sector hdr buf' d'

  unfoldable pub write_sectors : ℕ → ℕ → ℕ → FileHeader → Buffer → Disk F → Option (Disk F)
  write_sectors zero i first_sector hdr buf d = some d
  write_sectors (suc k) i first_sector hdr buf d = do
    sector ← byte_to_sector hdr (i * sector_size)
    d' ← write_sector host clock sector buf ((i - first_sector) * sector_size) d
    write_sectors k (i + 1) first_sector hdr buf d'

  -- ReadAt of n bytes, after the checks of the request.
  unfoldable pub read_part : FileHeader → Buffer → ℕ → ℕ → ℕ → Disk F → Option (ℕ × Buffer × Disk F)
  read_part hdr into offset n position d = do
    let first_sector = position / sector_size
    let last_sector = (position + n - 1) / sector_size
    let num_sectors = 1 + last_sector - first_sector
    (buf, d') ←
        read_sectors num_sectors first_sector first_sector hdr
          (new_buffer unset (num_sectors * sector_size)) d
    into' ← bcopy buf (position - first_sector * sector_size) into offset n
    some (n, into', d')

  -- The bytes go to `into` from `offset` on.
  unfoldable pub read_at : FileHeader → Buffer → ℕ → ℕ → ℕ → Disk F → Option (ℕ × Buffer × Disk F)
  read_at hdr into offset num_bytes position d =
      let length = file_length hdr in
      let done = read_part hdr into offset (request num_bytes position length) position d in
      if num_bytes == 0 || leb length position then some (0, into, d) else done

  -- ReadAt on a buffer of WriteAt, whose result is not used.
  unfoldable pub refill : FileHeader → ℕ → ℕ → Buffer × Disk F → Option (Buffer × Disk F)
  refill hdr offset position (buf, d) = do
    (n, buf', d') ← read_at hdr buf offset sector_size position d
    some (buf', d')

  -- The first and the last sector, where they are to be partially modified.
  unfoldable pub fill_ends : FileHeader → ℕ → ℕ → Buffer → Disk F → Option (Buffer × Disk F)
  fill_ends hdr n position buf d = do
    let first_sector = position / sector_size
    let last_sector = (position + n - 1) / sector_size
    let first_aligned = position == first_sector * sector_size
    let last_aligned = position + n == (last_sector + 1) * sector_size
    first ← when (not first_aligned) (buf, d) (refill hdr 0 (first_sector * sector_size))
    when (not last_aligned && (not (first_sector == last_sector) || first_aligned)) first
        (refill hdr ((last_sector - first_sector) * sector_size) (last_sector * sector_size))

  -- WriteAt of n bytes, after the checks of the request.
  unfoldable pub write_part : FileHeader → Buffer → ℕ → ℕ → Disk F → Option (ℕ × Disk F)
  write_part hdr from n position d = do
    let first_sector = position / sector_size
    let last_sector = (position + n - 1) / sector_size
    let num_sectors = 1 + last_sector - first_sector
    (buf, d') ← fill_ends hdr n position (new_buffer unset (num_sectors * sector_size)) d
    buf' ← bcopy from 0 buf (position - first_sector * sector_size) n
    d'' ← write_sectors num_sectors first_sector first_sector hdr buf' d'
    some (n, d'')

  unfoldable pub write_at : FileHeader → Buffer → ℕ → ℕ → Disk F → Option (ℕ × Disk F)
  write_at hdr from num_bytes position d =
      let length = file_length hdr in
      let done = write_part hdr from (request num_bytes position length) position d in
      if num_bytes == 0 || leb length position then some (0, d) else done

  unfoldable pub read : Buffer → ℕ → OpenFile → Disk F → Option (ℕ × Buffer × OpenFile × Disk F)
  read into num_bytes f d = do
    (result, into', d') ← read_at f.hdr into 0 num_bytes f.seek_position d
    some (result, into', record f { seek_position = f.seek_position + result }, d')

  unfoldable pub write : Buffer → ℕ → OpenFile → Disk F → Option (ℕ × OpenFile × Disk F)
  write from num_bytes f d = do
    (result, d') ← write_at f.hdr from num_bytes f.seek_position d
    some (result, record f { seek_position = f.seek_position + result }, d')
