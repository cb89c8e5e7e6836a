-- ===== src/Disk/Sectors.antt =====
-- What reading and writing a sector does.
use os_td_minf.Prelude.{
  ℕ, ◌+◌, ◌-◌, ◌*◌, ◌≤◌, ◌<◌, ◌≡◌, refl, true, false, ◌&&◌, some, arith, pos, ltb, leb,
  if◌then◌else◌, lt→ltb, le→leb,
}
use os_td_minf.FileHeader.{sector_size}
use os_td_minf.Disk.Defs.{
  HostFile, Buffer, bcopy, num_sectors, magic_size, Disk, update_last, handle_interrupt,
  read_request, write_request, read_sector, write_sector,
}

-- A copy inside both arrays succeeds.
pub bcopy_lem :
    (from : Buffer) (i : ℕ) (into : Buffer) (j n : ℕ)
    → i + n ≤ from.size
    → j + n ≤ into.size
    → bcopy from i into j n
      ≡ some (record into {
        bytes = λ k. if leb j k && ltb k (j + n) then from.bytes (i + (k - j)) else into.bytes k;
      })
unfolding bcopy
bcopy_lem from i into j n h k = simp (le→leb (i + n) from.size h, le→leb (j + n) into.size k) refl

-- Byte k of sector s.
abbrev pub sector_byte : {F : Type 0} → HostFile F → Disk F → ℕ → ℕ → ℕ
sector_byte host d s k = host.byte_at d.fileno (sector_size * s + magic_size + k)

-- A disk with no request in progress, and the same sectors.
pub record Rests {F : Type 0} (d d' : Disk F) : Type 0 where
  pub idle : d'.active ≡ false
  pub same : d'.fileno ≡ d.fileno

module _ {F : Type 0} (host : HostFile F) (clock : Disk F → ℕ) where
  pub read_sector_lem :
      (s : ℕ) (into : Buffer) (offset : ℕ) (d : Disk F)
      → d.active ≡ false
      → s < num_sectors
      → offset + sector_size ≤ into.size
      → (d' : Disk F) × Rests d d'
        × (read_sector host clock (pos s) into offset d
            ≡ some (
              record into {
                bytes = λ k.
                    if leb offset k && ltb k (offset + sector_size)
                    then sector_byte host d s (0 + (k - offset))
                    else into.bytes k;
              },
              d',
            ))
  unfolding read_sector read_request handle_interrupt update_last
  read_sector_lem s into offset d idle on_disk fits =
      let stored : Buffer = record { size = sector_size; bytes = λ k. sector_byte host d s k } in
      let copied = bcopy_lem stored 0 into offset sector_size (omega arith) fits in
      let d' : Disk F = record (update_last (clock d) s (record d { active = true })) {
        active = false;
        num_disk_reads = d.num_disk_reads + 1;
      } in
      (
        d',
        record { idle = refl; same = refl },
        simp (idle, lt→ltb s num_sectors on_disk) (rw copied refl),
      )

  pub write_sector_lem :
      (s : ℕ) (from : Buffer) (offset : ℕ) (d : Disk F)
      → d.active ≡ false
      → s < num_sectors
      → offset + sector_size ≤ from.size
      → (d' : Disk F) × (write_sector host clock (pos s) from offset d ≡ some d')
        × (d'.active ≡ false)
        × (d'.fileno
            ≡ host.write_at d.fileno
                (sector_size * s + magic_size)
                (λ k. from.bytes (offset + k))
                sector_size)
  unfolding write_sector write_request handle_interrupt update_last
  write_sector_lem s from offset d idle on_disk fits =
      let d' : Disk F = record (update_last (clock d) s (record d { active = true })) {
        active = false;
        fileno =
            host.write_at d.fileno (sector_size * s + magic_size) (λ k. from.bytes (offset + k))
              sector_size;
        num_disk_writes = d.num_disk_writes + 1;
      } in
      (
        d',
        simp (idle, lt→ltb s num_sectors on_disk, le→leb (offset + sector_size) from.size fits)
            refl,
        refl,
        refl,
      )
