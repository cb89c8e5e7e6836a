-- ===== src/OpenFile/Tests.antt =====
-- A file of 200 bytes in sectors 2 and 4 of a disk, and the properties at it.
use os_td_minf.Prelude.{
  ℕ, ◌+◌, ◌-◌, ◌*◌, ◌<◌, ◌≡◌, refl, true, false, ◌&&◌, some, [], ◌∷◌, arith, pos, ltb, leb,
  if◌then◌else◌, replicate,
}
use os_td_minf.FileHeader.{FileHeader, byte_to_sector, file_length}
use os_td_minf.Disk.Defs.{HostFile, Buffer, bcopy, Disk, read_sector}
use os_td_minf.OpenFile.Defs.{read_sectors, read_at, read_part, write_at}
use os_td_minf.OpenFile.Sectors.{Located, file_byte}
use os_td_minf.Bitmap.{BitMap, find, find_loop, test, mark, num_clear, num_clear_loop, div_round_up}
use os_td_minf.Bitmap.Words.{IsValid}
use os_td_minf.FileHeader.{allocate, allocate_loop}
use os_td_minf.Disk.Defs.{time_to_seek, update_last, handle_interrupt, read_request}
use os_td_minf.OpenFile.Writing.{Written, write_at-Written, read_at-write_at}
use os_td_minf.OpenFile.Allocated.{sector_of, allocate-Located}

-- A file of the host, as a function.
abbrev memory : HostFile (ℕ → ℕ)
memory = record {
  byte_at = λ f j. f j;
  write_at = λ f offset content n.
      λ j. if leb offset j && ltb j (offset + n) then content (j - offset) else f j;
  byte_at-write_at = λ f offset content n j. refl;
}

abbrev disk : Disk (ℕ → ℕ)
disk = record {
  fileno = λ j. j;
  active = false;
  last_sector = 0;
  buffer_init = 0;
  num_disk_reads = 0;
  num_disk_writes = 0;
}

abbrev clock : Disk (ℕ → ℕ) → ℕ
clock d = 20000 * (d.num_disk_reads + d.num_disk_writes)

abbrev garbage : ℕ → ℕ
garbage j = 77

-- Sectors 0, 1 and 3 are taken.
abbrev disk_map : BitMap
disk_map = record { num_bits = 40; num_words = 2; map = 11 ∷ 0 ∷ [] }

disk_map-IsValid : IsValid disk_map
disk_map-IsValid = omega arith

abbrev blank : FileHeader
blank = record { num_bytes = 0; num_sectors = 0; data_sectors = replicate 30 (pos 0) }

abbrev two_blocks : FileHeader
two_blocks = record {
  num_bytes = 200;
  num_sectors = 2;
  data_sectors = pos 2 ∷ pos 4 ∷ replicate 28 (pos 0);
}

abbrev marked_map : BitMap
marked_map = record disk_map { map = 31 ∷ 0 ∷ [] }

allocate_runs : allocate blank disk_map 200 ≡ some (true, two_blocks, marked_map)
unfolding allocate allocate_loop find find_loop test mark num_clear num_clear_loop div_round_up
allocate_runs = refl

two_blocks-Located : Located two_blocks (sector_of two_blocks)
unfolding div_round_up
two_blocks-Located =
    allocate-Located blank disk_map 200 two_blocks marked_map disk_map-IsValid refl (omega arith)
      allocate_runs (omega arith)

abbrev message : Buffer
message = record { size = 6; bytes = λ j. 100 + j }

abbrev room : Buffer
room = record { size = 10; bytes = λ j. 0 }

-- Six bytes across the two sectors.
write_at-Written_example :
    (d' : Disk (ℕ → ℕ)) × (write_at memory clock garbage two_blocks message 6 126 disk
      ≡ some (6, d'))
    × Written memory two_blocks (sector_of two_blocks) 6 message 126 disk d'
write_at-Written_example =
    write_at-Written memory clock garbage two_blocks-Located message 6 126 disk refl (omega arith)

read_at-write_at_example :
    (d' : Disk (ℕ → ℕ)) × (into' : Buffer) × (d'' : Disk (ℕ → ℕ)) × (write_at memory clock garbage
        two_blocks message 6 126 disk
      ≡ some (6, d'))
    × (read_at memory clock garbage two_blocks room 0 10 124 d' ≡ some (10, into', d''))
    × ((j : ℕ)
        → j < 10
        → into'.bytes j ≡ (
            if leb 126 (124 + j) && ltb (124 + j) (126 + 6)
            then message.bytes (124 + j - 126)
            else file_byte memory (sector_of two_blocks) disk (124 + j)))
read_at-write_at_example =
    read_at-write_at memory clock garbage two_blocks-Located message room 6 126 10 124 disk refl
      (omega arith) (omega arith)

-- At most what the file has is read.
reads_to_the_end :
    (into' : Buffer) × (d' : Disk (ℕ → ℕ)) × (read_at memory clock garbage two_blocks room 0 10 195
        disk
      ≡ some (5, into', d'))
    × (into'.bytes 0 ≡ 128 * 4 + 4 + 67)
    × (into'.bytes 5 ≡ 0)
unfolding read_at read_part read_sectors bcopy read_sector read_request handle_interrupt update_last
    file_length byte_to_sector time_to_seek
reads_to_the_end = (_, _, refl, refl, refl)
