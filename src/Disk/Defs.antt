-- ===== src/Disk/Defs.antt =====
-- code/machine/disk.cc and code/filesys/synchdisk.cc. The UNIX file that stores the disk is the host's:
-- an argument. A request takes the clock, and gives the ticks after which its interrupt comes.
use os_td_minf.Prelude.{
  ℕ, ◌+◌, ◌-◌, ◌*◌, ◌/◌, ◌%◌, ◌≡◌, Bool, true, false, not, ◌&&◌, Option, none, some, ℤ, pos, negsuc,
  ltb, leb, ◌==◌, if◌then◌else◌, ◌>>=◌, ◌>>◌, assert,
}
use os_td_minf.FileHeader.{sector_size}
use os_td_minf.Cpu.Word.{wrap, add32, sub32, lt_signed, div_signed, mod_signed}

-- Lseek and then Read or WriteFile on a file of the host.
pub record HostFile (F : Type 0) : Type 0 where
  pub byte_at : F → ℕ → ℕ
  pub write_at : F → ℕ → (ℕ → ℕ) → ℕ → F
  pub byte_at-write_at :
      (f : F) (offset : ℕ) (content : ℕ → ℕ) (n j : ℕ)
      → byte_at (write_at f offset content n) j
        ≡ (if leb offset j && ltb j (offset + n) then content (j - offset) else byte_at f j)

-- An array of bytes.
pub record Buffer : Type 0 where
  pub size : ℕ
  pub bytes : ℕ → ℕ

-- bcopy: n bytes of `from` at i go to `into` at j; a fault outside either array.
unfoldable pub bcopy : Buffer → ℕ → Buffer → ℕ → ℕ → Option Buffer
bcopy from i into j n = do
  assert (leb (i + n) from.size)
  assert (leb (j + n) into.size)
  some (record into {
    bytes = λ k. if leb j k && ltb k (j + n) then from.bytes (i + (k - j)) else into.bytes k;
  })

abbrev pub sectors_per_track : ℕ
sectors_per_track = 32

abbrev pub num_tracks : ℕ
num_tracks = 32

abbrev pub num_sectors : ℕ
num_sectors = sectors_per_track * num_tracks

abbrev pub magic_size : ℕ
magic_size = 4

abbrev pub rotation_time : ℕ
rotation_time = 500

abbrev pub seek_time : ℕ
seek_time = 500

-- `buffer_init` is an `int`, as its 32-bit pattern.
pub record Disk (F : Type 0) : Type 0 where
  pub fileno : F
  pub active : Bool
  pub last_sector : ℕ
  pub buffer_init : ℕ
  pub num_disk_reads : ℕ
  pub num_disk_writes : ℕ

-- Each track is seek_time ticks from the next.
abbrev pub tracks_apart : ℕ → ℕ → ℕ
tracks_apart new_sector last_sector =
    let new_track = new_sector / sectors_per_track in
    let old_track = last_sector / sectors_per_track in
    (new_track - old_track) + (old_track - new_track)

-- The seek, and the rotation to the next start of a sector.
unfoldable pub time_to_seek : ℕ → ℕ → ℕ → ℕ × ℕ
time_to_seek now last_sector new_sector =
    let seek = tracks_apart new_sector last_sector * seek_time in
    let over = (now + seek) % rotation_time in
    (seek, if ltb 0 over then rotation_time - over else 0)

-- On `int`, as 32-bit patterns.
unfoldable pub modulo_diff : ℕ → ℕ → ℕ
modulo_diff to from =
    let to_offset = mod_signed to sectors_per_track in
    let from_offset = mod_signed from sectors_per_track in
    mod_signed (add32 (sub32 to_offset from_offset) sectors_per_track) sectors_per_track

-- Whether the track buffer has the sector.
unfoldable pub buffered : ℕ → ℕ → ℕ → Bool → ℕ → Bool
buffered time_after buffer_init new_sector writing seek =
    not writing
    && (seek == 0)
    && lt_signed (modulo_diff new_sector (div_signed buffer_init rotation_time))
        (div_signed (sub32 time_after buffer_init) rotation_time)

-- `timeAfter` is an `int`: the clock is narrowed to 32 bits.
unfoldable pub compute_latency : ℕ → ℕ → ℕ → ℕ → Bool → ℕ
compute_latency now last_sector buffer_init new_sector writing =
    let (seek, rotation) = time_to_seek now last_sector new_sector in
    let time_after = wrap (now + seek + rotation) in
    let wait = modulo_diff new_sector (div_signed time_after rotation_time) * rotation_time in
    if buffered time_after buffer_init new_sector writing seek
    then rotation_time
    else seek + (rotation + wait) + rotation_time

module _ {F : Type 0} where
  unfoldable pub update_last : ℕ → ℕ → Disk F → Disk F
  update_last now new_sector d =
      let (seek, rotate) = time_to_seek now d.last_sector new_sector in
      record d {
        last_sector = new_sector;
        buffer_init = if seek == 0 then d.buffer_init else wrap (now + seek + rotate);
      }

  -- With its interrupt, the request is done.
  unfoldable pub handle_interrupt : Disk F → Disk F
  handle_interrupt d = record d { active = false }

  module _ (host : HostFile F) where
    -- The sector goes to the buffer at `offset`.
    unfoldable pub read_request : ℕ → ℤ → Buffer → ℕ → Disk F → Option (ℕ × Buffer × Disk F)
    read_request now (negsuc n) into offset d = none
    read_request now (pos sector) into offset d = do
      let ticks = compute_latency now d.last_sector d.buffer_init sector false
      assert (not d.active)
      assert (ltb sector num_sectors)
      let start = sector_size * sector + magic_size
      let stored : Buffer = record {
        size = sector_size;
        bytes = λ k. host.byte_at d.fileno (start + k);
      }
      into' ← bcopy stored 0 into offset sector_size
      some (
        ticks,
        into',
        record (update_last now sector (record d { active = true })) {
          num_disk_reads = d.num_disk_reads + 1;
        },
      )

    -- The sector comes from the buffer at `offset`; a fault when it has less than a sector there.
    unfoldable pub write_request : ℕ → ℤ → Buffer → ℕ → Disk F → Option (ℕ × Disk F)
    write_request now (negsuc n) from offset d = none
    write_request now (pos sector) from offset d = do
      let ticks = compute_latency now d.last_sector d.buffer_init sector true
      assert (not d.active)
      assert (ltb sector num_sectors)
      assert (leb (offset + sector_size) from.size)
      let start = sector_size * sector + magic_size
      let content = λ (k : ℕ). from.bytes (offset + k)
      some (
        ticks,
        record (update_last now sector (record d { active = true })) {
          fileno = host.write_at d.fileno start content sector_size;
          num_disk_writes = d.num_disk_writes + 1;
        },
      )

    -- SynchDisk: the lock lets one request in at a time, and P returns after the interrupt. `clock` is
    -- the time at which a request comes.
    module _ (clock : Disk F → ℕ) where
      unfoldable pub read_sector : ℤ → Buffer → ℕ → Disk F → Option (Buffer × Disk F)
      read_sector sector into offset d = do
        (ticks, into', d') ← read_request (clock d) sector into offset d
        some (into', handle_interrupt d')

      unfoldable pub write_sector : ℤ → Buffer → ℕ → Disk F → Option (Disk F)
      write_sector sector from offset d = do
        (ticks, d') ← write_request (clock d) sector from offset d
        some (handle_interrupt d')
