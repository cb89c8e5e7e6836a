-- ===== src/FileHeader/Tests.antt =====
-- Runs of the file header's code, and its theorems at one map of 40 sectors.
use os_td_minf.Prelude.{ℕ, ◌/◌, ◌≡◌, refl, true, none, some, [], ◌∷◌, arith, pos, replicate}
use os_td_minf.Bitmap.{
  BitMap, find, find_loop, test, mark, clear, num_clear, num_clear_loop, div_round_up,
}
use os_td_minf.Bitmap.Words.{IsValid, is_set}
use os_td_minf.Bitmap.Search.{clear_from}
use os_td_minf.FileHeader.Defs.{
  FileHeader, allocate_loop, allocate, deallocate_loop, deallocate, byte_to_sector,
}
use os_td_minf.FileHeader.Allocate.{Allocates, allocate-Allocates}
use os_td_minf.FileHeader.RoundTrip.{Released, deallocate-Released, deallocate-allocate}
use os_td_minf.FileHeader.Lookup.{Owns, byte_to_sector-allocate, allocate_overflow}

-- Sectors 0, 1 and 3 are taken.
abbrev disk_map : BitMap
disk_map = record { num_bits = 40; num_words = 2; map = 11 ∷ 0 ∷ [] }

disk_map-IsValid : IsValid disk_map
disk_map-IsValid = omega arith

abbrev blank : FileHeader
blank = record { num_bytes = 0; num_sectors = 0; data_sectors = replicate 30 (pos 0) }

abbrev two_blocks : FileHeader
two_blocks = record {
  num_bytes = 200;
  num_sectors = 2;
  data_sectors = pos 2 ∷ pos 4 ∷ replicate 28 (pos 0);
}

abbrev marked_map : BitMap
marked_map = record disk_map { map = 31 ∷ 0 ∷ [] }

allocate_runs : allocate blank disk_map 200 ≡ some (true, two_blocks, marked_map)
unfolding allocate allocate_loop find find_loop test mark num_clear num_clear_loop div_round_up
allocate_runs = refl

deallocate_runs : deallocate two_blocks marked_map ≡ some disk_map
unfolding deallocate deallocate_loop test clear
deallocate_runs = refl

allocate-Allocates_example : Allocates blank disk_map 200 (allocate blank disk_map 200)
unfolding div_round_up
allocate-Allocates_example =
    allocate-Allocates blank disk_map 200 disk_map-IsValid refl (omega arith)

deallocate-Released_example :
    (b : BitMap) × (deallocate two_blocks marked_map ≡ some b) × Released marked_map (2 ∷ 4 ∷ []) b
unfolding is_set
deallocate-Released_example =
    deallocate-Released (2 ∷ 4 ∷ []) two_blocks marked_map (omega arith) refl (refl, (refl, tt))
      (refl, (refl, tt)) (omega arith, refl, (omega arith, refl, tt))

deallocate-allocate_example :
    (b : BitMap) × (deallocate two_blocks marked_map ≡ some b)
    × ((j : ℕ) → is_set b j ≡ is_set disk_map j)
unfolding div_round_up
deallocate-allocate_example =
    deallocate-allocate blank disk_map 200 disk_map-IsValid refl (omega arith) allocate_runs

byte_to_sector-allocate_example :
    Owns disk_map marked_map two_blocks 150
    × (byte_to_sector two_blocks 150 ≡ byte_to_sector two_blocks 199 → 150 / 128 ≡ 199 / 128)
unfolding div_round_up
byte_to_sector-allocate_example =
    byte_to_sector-allocate blank disk_map 200 disk_map-IsValid refl (omega arith) allocate_runs 150
      199 (omega arith) (omega arith)

allocate_overflow_example : allocate blank disk_map 3841 ≡ none
unfolding div_round_up clear_from is_set
allocate_overflow_example =
    allocate_overflow blank disk_map 3841 disk_map-IsValid (omega arith) (omega arith)
