-- ===== src/FileHeader/Lookup.antt =====
-- FileHeader::ByteToSector on a header that Allocate made, and Allocate on a file too large for
-- the sector table.
use os_td_minf.Prelude.{
  ℕ, zero, suc, ◌+◌, ◌/◌, ◌≤◌, ◌<◌, ◌≡◌, ap, subst, ◌∙◌, inl, inr, Bool, true, false, Option, none,
  some, List, arith, pos, ltb, le→ltb, Bool-cases, length, set,
}
use os_td_minf.Bitmap.{BitMap, div_round_up}
use os_td_minf.Bitmap.Words.{IsValid, is_set}
use os_td_minf.Bitmap.Search.{free_count, num_clear_lem}
use os_td_minf.FileHeader.Defs.{
  FileHeader, num_direct, sector_size, sector_at, allocate_loop, allocate, byte_to_sector, sized,
}
use os_td_minf.FileHeader.Blocks.{has, free_count-mark}
use os_td_minf.FileHeader.Allocate.{
  Wrote, Allocates, refused, allocated, allocate-Allocates, find_takes,
}
use os_td_minf.FileHeader.RoundTrip.{PointsTo-at, has-get_elem?, distinct_index}

sector_lt : (offset size : ℕ) → offset < size → offset / sector_size < div_round_up size sector_size
unfolding div_round_up
sector_lt offset size lt = ground arith

-- The byte at `offset` lies in a sector that the file owns.
abbrev pub Owns : BitMap → BitMap → FileHeader → ℕ → Type 0
Owns b b' h offset =
    (s : ℕ) × (byte_to_sector h offset ≡ some (pos s))
    × (is_set b s ≡ false)
    × (is_set b' s ≡ true)
    × (s < b.num_bits)

byte_to_sector-Wrote :
    (h g : FileHeader) (b c : BitMap) (ss : List ℕ) (size offset : ℕ)
    → Wrote (div_round_up size sector_size) 0 g b ss h c
    → offset < size
    → Owns b c h offset
unfolding byte_to_sector
byte_to_sector-Wrote h g b c ss size offset w lt =
    let (s, e, q) =
      PointsTo-at h 0 ss (offset / sector_size) w.points
        (omega (arith, w.many, sector_lt offset size lt)) in
    let mine : has s ss ≡ true = has-get_elem? ss _ s e in
    (
      s,
      ap (λ n. sector_at h n) (omega arith) ∙ q,
      w.took.fresh s mine,
      ground (arith, w.took.bits s, mine),
      w.took.small s mine,
    )

same_sector-Wrote :
    (h g : FileHeader) (b c : BitMap) (ss : List ℕ) (size x y : ℕ)
    → Wrote (div_round_up size sector_size) 0 g b ss h c
    → x < size
    → y < size
    → byte_to_sector h x ≡ byte_to_sector h y
    → x / sector_size ≡ y / sector_size
unfolding byte_to_sector
same_sector-Wrote h g b c ss size x y w lx ly e =
    let (s, es, qs) =
      PointsTo-at h 0 ss (x / sector_size) w.points (omega (arith, w.many, sector_lt x size lx)) in
    let (t, et, qt) =
      PointsTo-at h 0 ss (y / sector_size) w.points (omega (arith, w.many, sector_lt y size ly)) in
    let zx : sector_at h (0 + x / sector_size) ≡ sector_at h (x / sector_size) =
      ap (λ n. sector_at h n) (omega arith) in
    let zy : sector_at h (0 + y / sector_size) ≡ sector_at h (y / sector_size) =
      ap (λ n. sector_at h n) (omega arith) in
    let same : s ≡ t = cc in
    distinct_index ss (x / sector_size) (y / sector_size) t w.took.distinct (rw same at es) et

module _ (h : FileHeader) (b : BitMap) (size : ℕ) {h' : FileHeader} {b' : BitMap} (is : IsValid b)
    (table : length h.data_sectors ≡ num_direct) (fits : div_round_up size sector_size ≤ num_direct)
    (made : allocate h b size ≡ some (true, h', b')) where
  -- What Allocate returned, taken apart.
  written : (ss : List ℕ) × Wrote (div_round_up size sector_size) 0 (sized h size) b ss h' b'
  written = go (allocate h b size) (allocate-Allocates h b size is table fits) made
    where
      go :
          (r : Option (Bool × FileHeader × BitMap))
          → Allocates h b size r
          → r ≡ some (true, h', b')
          → (ss : List ℕ) × Wrote (div_round_up size sector_size) 0 (sized h size) b ss h' b'
      go r (refused _) q = cc
      go r (allocated ss {h' = g} {b' = c} w) q =
          let same_h : g ≡ h' = cc in
          let same_b : c ≡ b' = cc in
          (
            ss,
            subst (λ x. Wrote (div_round_up size sector_size) 0 (sized h size) b ss x b') same_h
                (subst (λ x. Wrote (div_round_up size sector_size) 0 (sized h size) b ss g x) same_b
                  w),
          )

  -- Every byte of a file that FileHeader::Allocate made has a sector, which was free before and is
  -- marked now; two bytes share a sector only when they are in the same block of the file.
  pub byte_to_sector-allocate :
      (x y : ℕ)
      → x < size
      → y < size
      → Owns b b' h' x
        × (byte_to_sector h' x ≡ byte_to_sector h' y → x / sector_size ≡ y / sector_size)
  byte_to_sector-allocate x y lx ly =
      let (ss, w) = written in
      (
        byte_to_sector-Wrote h' _ b b' ss size x w lx,
        λ e. same_sector-Wrote h' _ b b' ss size x y w lx ly e,
      )

  pub num_bytes-allocate : h'.num_bytes ≡ size
  num_bytes-allocate = let (ss, w) = written in w.num_bytes

allocate_loop-overflow :
    (k i : ℕ) (h : FileHeader) (b : BitMap)
    → IsValid b
    → i ≤ num_direct
    → num_direct < i + k
    → k ≤ free_count b
    → allocate_loop k i h b ≡ none
unfolding allocate_loop
allocate_loop-overflow zero i h b is low high enough = absurd (omega arith)
allocate_loop-overflow (suc k) i h b is low high enough =
    let (s, c, e, lt, f, u) = find_takes b is (omega arith) in
    elim (Bool-cases (ltb i num_direct)) [
      | inl inside ↦
          rw (e, inside)
            (allocate_loop-overflow k (i + 1)
              (record h { data_sectors = set h.data_sectors i (pos s) }) c u.valid (ground arith)
              (omega arith) (omega (arith, free_count-mark b s c u lt f)))
      | inr outside ↦ rw (e, outside)
    ]

-- FileHeader::Allocate does not check that the file fits the header: with enough free sectors, a
-- file of more than 30 sectors makes it write past the end of `dataSectors`.
pub allocate_overflow :
    (h : FileHeader) (b : BitMap) (size : ℕ)
    → IsValid b
    → num_direct < div_round_up size sector_size
    → div_round_up size sector_size ≤ free_count b
    → allocate h b size ≡ none
unfolding allocate
allocate_overflow h b size is big enough = rw (
  num_clear_lem b,
  le→ltb (free_count b) (div_round_up size sector_size) enough,
  allocate_loop-overflow (div_round_up size sector_size) 0 (sized h size) b is (omega arith)
      (omega arith) enough,
)
