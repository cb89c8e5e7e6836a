-- ===== src/FileHeader/RoundTrip.antt =====
-- FileHeader::Deallocate undoes FileHeader::Allocate, and FileHeader::ByteToSector reads what
-- Allocate wrote.
use os_td_minf.Prelude.{
  ℕ, zero, suc, ◌+◌, ◌≤◌, ◌<◌, ◌≡◌, refl, sym, ap, subst, ◌∙◌, Bool, true, false, not, ◌&&◌, Option,
  some, List, [], ◌∷◌, arith, pos, length, get_elem?,
}
use os_td_minf.Bitmap.{BitMap, div_round_up}
use os_td_minf.Bitmap.Words.{IsValid, is_set, Updated, clear-Updated, test_lem}
use os_td_minf.FileHeader.Defs.{
  FileHeader, num_direct, sector_size, sector_at, allocate, deallocate_loop, deallocate,
}
use os_td_minf.FileHeader.Blocks.{has, AllDistinct, Took}
use os_td_minf.FileHeader.Allocate.{PointsTo, Allocates, refused, allocated, allocate-Allocates}

-- Every sector of the list is marked in the map.
abbrev pub AllMarked : BitMap → List ℕ → Type 0
AllMarked b [] = Unit {0}
AllMarked b (s ∷ ss) = (s < b.num_bits) × (is_set b s ≡ true) × AllMarked b ss

AllMarked-clear :
    (b b' : BitMap) (s : ℕ) (ss : List ℕ)
    → Updated b s false b'
    → has s ss ≡ false
    → AllMarked b ss
    → AllMarked b' ss
AllMarked-clear b b' s [] u out m = tt
AllMarked-clear b b' s (x ∷ xs) u out (lt, on, rest) = (
  omega (arith, u.same_size),
  ground (arith, u.bits x),
  AllMarked-clear b b' s xs u (ground arith) rest,
)

pub record Released (b : BitMap) (ss : List ℕ) (b' : BitMap) : Type 0 where
  pub valid : IsValid b'
  pub same_size : b'.num_bits ≡ b.num_bits
  pub bits : (j : ℕ) → is_set b' j ≡ (not (has j ss) && is_set b j)

deallocate_loop-Released :
    (i : ℕ) (ss : List ℕ) (h : FileHeader) (b : BitMap)
    → IsValid b
    → PointsTo h i ss
    → AllDistinct ss
    → AllMarked b ss
    → (b' : BitMap) × (deallocate_loop (length ss) i h b ≡ some b') × Released b ss b'
unfolding deallocate_loop
deallocate_loop-Released i [] h b is points apart marked =
    (b, refl, record { valid = is; same_size = refl; bits = λ j. refl })
deallocate_loop-Released i (s ∷ ss) h b is (at, points) (out, apart) (lt, on, marked) =
    let (c, e, u) = clear-Updated b s is lt in
    let (b', run, r) =
      deallocate_loop-Released (i + 1) ss h c u.valid points apart
        (AllMarked-clear b c s ss u out marked) in
    (
      b',
      rw (at, test_lem b s lt, on, e) run,
      record {
        valid = r.valid;
        same_size = r.same_size ∙ u.same_size;
        bits = λ j. ground (arith, r.bits j, u.bits j);
      },
    )

-- FileHeader::Deallocate gives up exactly the sectors that the header points to; its ASSERT holds
-- when they are distinct and marked.
pub deallocate-Released :
    (ss : List ℕ) (h : FileHeader) (b : BitMap)
    → IsValid b
    → h.num_sectors ≡ length ss
    → PointsTo h 0 ss
    → AllDistinct ss
    → AllMarked b ss
    → (b' : BitMap) × (deallocate h b ≡ some b') × Released b ss b'
unfolding deallocate
deallocate-Released ss h b is count points apart marked =
    let (b', run, r) = deallocate_loop-Released 0 ss h b is points apart marked in
    (b', ap (λ n. deallocate_loop n 0 h b) count ∙ run, r)

Took-AllMarked :
    (b : BitMap) (all ss : List ℕ) (b' : BitMap)
    → Took b all b'
    → ((j : ℕ) → has j ss ≡ true → has j all ≡ true)
    → AllMarked b' ss
Took-AllMarked b all [] b' t part = tt
Took-AllMarked b all (s ∷ ss) b' t part =
    let here : has s all ≡ true = part s (ground arith) in
    (
      omega (arith, t.small s here, t.same_size),
      ground (arith, t.bits s, here),
      Took-AllMarked b all ss b' t λ j e. part j (ground arith),
    )

-- After a successful FileHeader::Allocate, FileHeader::Deallocate succeeds and gives back the map
-- of free sectors as it was before, bit for bit.
pub deallocate-allocate :
    (h : FileHeader) (b : BitMap) (size : ℕ) {h' : FileHeader} {b' : BitMap}
    → IsValid b
    → length h.data_sectors ≡ num_direct
    → div_round_up size sector_size ≤ num_direct
    → allocate h b size ≡ some (true, h', b')
    → (b'' : BitMap) × (deallocate h' b' ≡ some b'') × ((j : ℕ) → is_set b'' j ≡ is_set b j)
deallocate-allocate h b size {h'} {b'} is table fits e =
    go (allocate h b size) (allocate-Allocates h b size is table fits) e
  where
    go :
        (r : Option (Bool × FileHeader × BitMap))
        → Allocates h b size r
        → r ≡ some (true, h', b')
        → (b'' : BitMap) × (deallocate h' b' ≡ some b'') × ((j : ℕ) → is_set b'' j ≡ is_set b j)
    go r (refused _) q = cc
    go r (allocated ss {h' = g} {b' = c} w) q =
        let (b'', run, rel) =
          deallocate-Released ss g c w.took.valid (w.num_sectors ∙ sym w.many) w.points
            w.took.distinct (Took-AllMarked b ss ss c w.took λ j x. x) in
        let same_h : g ≡ h' = cc in
        let same_b : c ≡ b' = cc in
        (
          b'',
          subst (λ x. deallocate x b' ≡ some b'') same_h
              (subst (λ x. deallocate g x ≡ some b'') same_b run),
          λ j. ground (arith, rel.bits j, w.took.bits j, w.took.fresh j),
        )

pub PointsTo-at :
    (h : FileHeader) (i : ℕ) (ss : List ℕ) (j : ℕ)
    → PointsTo h i ss
    → j < length ss
    → (s : ℕ) × (get_elem? ss j ≡ some s) × (sector_at h (i + j) ≡ some (pos s))
PointsTo-at h i [] j points lt = absurd (omega arith)
PointsTo-at h i (s ∷ ss) zero (at, points) lt =
    (s, refl, ap (λ n. sector_at h n) (omega arith) ∙ at)
PointsTo-at h i (s ∷ ss) (suc j) (at, points) lt =
    let (t, e, q) = PointsTo-at h (i + 1) ss j points (omega arith) in
    (t, e, ap (λ n. sector_at h n) (omega arith) ∙ q)

pub has-get_elem? : (ss : List ℕ) (j s : ℕ) → get_elem? ss j ≡ some s → has s ss ≡ true
has-get_elem? [] j s e = cc
has-get_elem? (x ∷ xs) zero s e = ground arith
has-get_elem? (x ∷ xs) (suc j) s e = ground (arith, has-get_elem? xs j s e)

pub distinct_index :
    (ss : List ℕ) (j k s : ℕ)
    → AllDistinct ss
    → get_elem? ss j ≡ some s
    → get_elem? ss k ≡ some s
    → j ≡ k
distinct_index [] j k s d p q = cc
distinct_index (x ∷ xs) zero zero s d p q = refl
distinct_index (x ∷ xs) zero (suc k) s (out, d) p q = ground (arith, has-get_elem? xs k s q)
distinct_index (x ∷ xs) (suc j) zero s (out, d) p q = ground (arith, has-get_elem? xs j s p)
distinct_index (x ∷ xs) (suc j) (suc k) s (out, d) p q = ap suc (distinct_index xs j k s d p q)
