-- ===== src/OpenFile/Allocated.antt =====
-- Files that FileHeader::Allocate made are such as ReadAt and WriteAt need.
use os_td_minf.Prelude.{
  ℕ, ◌*◌, ◌≤◌, ◌≡◌, sym, ap, ◌∙◌, true, Option, none, some, arith, ℤ, pos, negsuc, length,
}
use os_td_minf.FileHeader.{FileHeader, sector_size, byte_to_sector}
use os_td_minf.Disk.Defs.{num_sectors}
use os_td_minf.OpenFile.Sectors.{Located}
use os_td_minf.Bitmap.{BitMap, div_round_up}
use os_td_minf.Bitmap.Words.{IsValid}
use os_td_minf.FileHeader.{allocate, num_direct}
use os_td_minf.FileHeader.Lookup.{byte_to_sector-allocate, num_bytes-allocate}

-- The sector of block b by the header.
abbrev pub number_of : Option ℤ → ℕ
number_of none = 0
number_of (some (pos s)) = s
number_of (some (negsuc n)) = 0

abbrev pub sector_of : FileHeader → ℕ → ℕ
sector_of h b = number_of (byte_to_sector h (b * sector_size))

-- A file that Allocate made, with a map of no more sectors than the disk has: each of its blocks has
-- a sector of the disk of its own.
pub allocate-Located :
    (h : FileHeader) (b : BitMap) (size : ℕ) (h' : FileHeader) (b' : BitMap)
    → IsValid b
    → length h.data_sectors ≡ num_direct
    → div_round_up size sector_size ≤ num_direct
    → allocate h b size ≡ some (true, h', b')
    → b.num_bits ≤ num_sectors
    → Located h' (sector_of h')
allocate-Located h b size h' b' is table fits made small =
    let total = num_bytes-allocate h b size {h' = h'} {b' = b'} is table fits made in
    let own = byte_to_sector-allocate h b size {h' = h'} {b' = b'} is table fits made in
    record {
      found = λ c lt.
          let owns =
            (own (c * sector_size) (c * sector_size) (omega (arith, total))
              (omega (arith, total))).0 in
          owns.1 ∙ ap (λ o. some (pos (number_of o))) (sym owns.1);
      on_disk = λ c lt.
          let owns =
            (own (c * sector_size) (c * sector_size) (omega (arith, total))
              (omega (arith, total))).0 in
          omega (arith, owns.4, ap number_of owns.1);
      apart = λ a c la lc e.
          let oa =
            own (a * sector_size) (c * sector_size) (omega (arith, total)) (omega (arith, total)) in
          let oc =
            (own (c * sector_size) (c * sector_size) (omega (arith, total))
              (omega (arith, total))).0 in
          let same : byte_to_sector h' (a * sector_size) ≡ byte_to_sector h' (c * sector_size) =
            oa.0.1
            ∙ ap (λ m. some (pos m)) (sym (ap number_of oa.0.1) ∙ e ∙ ap number_of oc.1)
            ∙ sym oc.1 in
          omega (arith, oa.1 same);
    }
