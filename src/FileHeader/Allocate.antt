-- ===== src/FileHeader/Allocate.antt =====
-- FileHeader::Allocate: what a new header points to, and what becomes of the map of free sectors.
use os_td_minf.Prelude.{
  ℕ, zero, suc, ◌+◌, ◌≤◌, ◌<◌, ◌≡◌, refl, ◌∙◌, inl, inr, Bool, true, false, Option, some, List, [],
  ◌∷◌, arith, pos, ltb, ltb→lt, lt→ltb, Bool-cases, length, set, length-set, get_elem?-set_self,
  get_elem?-set_ne,
}
use os_td_minf.Bitmap.{BitMap, find, div_round_up}
use os_td_minf.Bitmap.Words.{IsValid, is_set, Updated}
use os_td_minf.Bitmap.Search.{free_count, clear_from, num_clear_lem, Finds, full, taken, find-Finds}
use os_td_minf.FileHeader.Defs.{
  FileHeader, num_direct, sector_size, sector_at, allocate_loop, allocate, sized,
}
use os_td_minf.FileHeader.Blocks.{Took, Took-nil, Took-cons, free_count-mark}

-- From entry `i` on, the header points to the sectors `ss`.
abbrev pub PointsTo : FileHeader → ℕ → List ℕ → Type 0
PointsTo h i [] = Unit {0}
PointsTo h i (s ∷ ss) = (sector_at h i ≡ some (pos s)) × PointsTo h (i + 1) ss

clear_from-full :
    (k i : ℕ) (s : ℕ → Bool) → ((j : ℕ) → j < i + k → s j ≡ true) → clear_from k i s ≡ 0
unfolding clear_from
clear_from-full zero i s all = refl
clear_from-full (suc k) i s all =
    ground (arith, all i (omega arith), clear_from-full k (i + 1) s λ j lt. all j (omega arith))

-- With a bit left to take, BitMap::Find takes one.
pub find_takes :
    (b : BitMap)
    → IsValid b
    → 0 < free_count b
    → (i : ℕ) × (b' : BitMap) × (find b ≡ some (b', pos i))
      × (i < b.num_bits)
      × (is_set b i ≡ false)
      × Updated b i true b'
find_takes b is some_left = go (find-Finds b is)
  where
    go :
        Finds b (find b)
        → (i : ℕ) × (b' : BitMap) × (find b ≡ some (b', pos i))
          × (i < b.num_bits)
          × (is_set b i ≡ false)
          × Updated b i true b'
    go (full e all) =
        absurd (omega (arith, clear_from-full b.num_bits 0 (is_set b) λ j lt. all j (omega arith)))
    go (taken i b' e lt f _ u) = (i, b', e, lt, f, u)

-- What the loop of Allocate has done: `ss` are the sectors of entries `i` to `i + k - 1`.
pub record Wrote (k i : ℕ) (h : FileHeader) (b : BitMap) (ss : List ℕ) (h' : FileHeader)
    (b' : BitMap) : Type 0 where
  pub took : Took b ss b'
  pub many : length ss ≡ k
  pub points : PointsTo h' i ss
  pub before : (j : ℕ) → j < i → sector_at h' j ≡ sector_at h j
  pub table : length h'.data_sectors ≡ length h.data_sectors
  pub num_bytes : h'.num_bytes ≡ h.num_bytes
  pub num_sectors : h'.num_sectors ≡ h.num_sectors

allocate_loop-Wrote :
    (k i : ℕ) (h : FileHeader) (b : BitMap)
    → IsValid b
    → length h.data_sectors ≡ num_direct
    → i + k ≤ num_direct
    → k ≤ free_count b
    → (ss : List ℕ) × (h' : FileHeader) × (b' : BitMap) × (allocate_loop k i h b ≡ some (h', b'))
      × Wrote k i h b ss h' b'
unfolding allocate_loop
allocate_loop-Wrote zero i h b is table room enough = (
  [],
  h,
  b,
  refl,
  record {
    took = Took-nil b is;
    many = refl;
    points = tt;
    before = λ j lt. refl;
    table = refl;
    num_bytes = refl;
    num_sectors = refl;
  },
)
allocate_loop-Wrote (suc k) i h b is table room enough =
    let (s, c, e, lt, f, u) = find_takes b is (omega arith) in
    let h₁ = record h { data_sectors = set h.data_sectors i (pos s) } in
    let same : length h₁.data_sectors ≡ length h.data_sectors =
      length-set h.data_sectors i (pos s) in
    let (ss, h', b', run, w) =
      allocate_loop-Wrote k (i + 1) h₁ c u.valid (same ∙ table) (omega arith)
        (omega (arith, free_count-mark b s c u lt f)) in
    (
      s ∷ ss,
      h',
      b',
      rw (e, lt→ltb i num_direct (omega arith)) run,
      record {
        took = Took-cons b s c b' ss u lt f w.took;
        many = omega (arith, w.many);
        points = (
          w.before i (omega arith) ∙ get_elem?-set_self h.data_sectors i (pos s) (omega arith),
          w.points,
        );
        before = λ j below.
            w.before j (omega arith) ∙ get_elem?-set_ne h.data_sectors (pos s) (omega arith);
        table = w.table ∙ same;
        num_bytes = w.num_bytes;
        num_sectors = w.num_sectors;
      },
    )

-- What FileHeader::Allocate does for a file of `n` sectors.
pub data Allocates (h : FileHeader) (b : BitMap) (size : ℕ)
    : Option (Bool × FileHeader × BitMap) → Type 0 where
  refused :
      free_count b < div_round_up size sector_size
      → Allocates h b size (some (false, sized h size, b))
  allocated :
      (ss : List ℕ) {h' : FileHeader} {b' : BitMap}
      → Wrote (div_round_up size sector_size) 0 (sized h size) b ss h' b'
      → Allocates h b size (some (true, h', b'))

-- FileHeader::Allocate never faults for a file that fits a header. It refuses exactly when there
-- are fewer free sectors than the file needs, leaving the map as it was; otherwise the header
-- points to that many distinct sectors, which were free and are now marked, and nothing else is.
pub allocate-Allocates :
    (h : FileHeader) (b : BitMap) (size : ℕ)
    → IsValid b
    → length h.data_sectors ≡ num_direct
    → div_round_up size sector_size ≤ num_direct
    → Allocates h b size (allocate h b size)
unfolding allocate
allocate-Allocates h b size is table fits =
    rw (num_clear_lem b) (elim (Bool-cases (ltb (free_count b) n)) [
      | inl less ↦ rw less (refused (ltb→lt _ n less))
      | inr more ↦
          let (ss, h', b', run, w) =
            allocate_loop-Wrote n 0 (sized h size) b is table (omega arith) (ground arith) in
          rw (more, run) (allocated ss w)
    ])
  where
    n : ℕ
    n = div_round_up size sector_size
