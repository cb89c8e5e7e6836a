-- ===== src/Bitmap/Search.antt =====
-- BitMap::Find, BitMap::NumClear and the constructor, through the view `is_set`.
use os_td_minf.Prelude.{
  ℕ, zero, suc, ◌+◌, ◌≤◌, ◌<◌, ◌≡◌, refl, ap, ◌∙◌, inl, inr, Bool, true, false, Option, some, List,
  arith, ℤ, pos, negsuc, ◌==◌, if◌then◌else◌, Bool-cases, length,
}
use native.Mathlib.Decide.{dec_lt}
use os_td_minf.Bitmap.Defs.{
  BitMap, clear_loop, create, find_loop, find, num_clear_loop, num_clear, div_round_up,
}
use os_td_minf.Bitmap.Words.{IsValid, is_set, Updated, mark-Updated, clear-Updated, test_lem}

-- How many of the `k` numbers from `i` on are not in the set.
unfoldable pub clear_from : ℕ → ℕ → (ℕ → Bool) → ℕ
clear_from zero i s = 0
clear_from (suc k) i s = (if s i then 0 else 1) + clear_from k (i + 1) s

clear_from-le : (k i : ℕ) (s : ℕ → Bool) → clear_from k i s ≤ k
unfolding clear_from
clear_from-le zero i s = omega arith
clear_from-le (suc k) i s = ground (arith, clear_from-le k (i + 1) s)

-- A number outside the range makes no difference.
clear_from-outside :
    (k i j : ℕ) (s t : ℕ → Bool) (v : Bool)
    → ((x : ℕ) → t x ≡ (if j == x then v else s x))
    → j < i
    → clear_from k i t ≡ clear_from k i s
unfolding clear_from
clear_from-outside zero i j s t v h lt = refl
clear_from-outside (suc k) i j s t v h lt =
    ground (arith, h i, clear_from-outside k (i + 1) j s t v h)

-- Adding a number that was missing takes one off the count.
pub clear_from-mark :
    (k i j : ℕ) (s t : ℕ → Bool)
    → ((x : ℕ) → t x ≡ (if j == x then true else s x))
    → i ≤ j
    → j < i + k
    → s j ≡ false
    → clear_from k i s ≡ clear_from k i t + 1
unfolding clear_from
clear_from-mark zero i j s t h le lt out = absurd (omega arith)
clear_from-mark (suc k) i j s t h le lt out =
    ground
      (arith, h i, clear_from-outside k (i + 1) j s t true h, clear_from-mark k (i + 1) j s t h)

pub clear_from-clear :
    (k i j : ℕ) (s t : ℕ → Bool)
    → ((x : ℕ) → t x ≡ (if j == x then false else s x))
    → i ≤ j
    → j < i + k
    → s j ≡ true
    → clear_from k i t ≡ clear_from k i s + 1
unfolding clear_from
clear_from-clear zero i j s t h le lt out = absurd (omega arith)
clear_from-clear (suc k) i j s t h le lt out =
    ground
      (arith, h i, clear_from-outside k (i + 1) j s t false h, clear_from-clear k (i + 1) j s t h)

num_clear_loop-count :
    (k i count : ℕ) (b : BitMap)
    → i + k ≡ b.num_bits
    → num_clear_loop k i count b ≡ some (count + clear_from k i (is_set b))
unfolding num_clear_loop clear_from
num_clear_loop-count zero i count b e = ap some (omega arith)
num_clear_loop-count (suc k) i count b e =
    rw (test_lem b i (omega arith))
      (ground (arith, num_clear_loop-count k (i + 1) (if is_set b i then count else count + 1) b))

-- The number of clear bits, as a property of the set that the bit map stands for.
abbrev pub free_count : BitMap → ℕ
free_count b = clear_from b.num_bits 0 (is_set b)

-- BitMap::NumClear counts the clear bits, and none of its tests is out of range.
pub num_clear_lem : (b : BitMap) → num_clear b ≡ some (free_count b)
unfolding num_clear
num_clear_lem b = rw (num_clear_loop-count b.num_bits 0 0 b (omega arith)) (ap some (omega arith))

-- What BitMap::Find may do: report that every bit is set, or take the first clear one.
pub data Finds (b : BitMap) (r : Option (BitMap × ℤ)) : Type 0 where
  full : r ≡ some (b, negsuc 0) → ((j : ℕ) → j < b.num_bits → is_set b j ≡ true) → Finds b r
  taken :
      (i : ℕ) (b' : BitMap)
      → r ≡ some (b', pos i)
      → i < b.num_bits
      → is_set b i ≡ false
      → ((j : ℕ) → j < i → is_set b j ≡ true)
      → Updated b i true b'
      → Finds b r

find_loop-Finds :
    (k i : ℕ) (b : BitMap)
    → IsValid b
    → i + k ≡ b.num_bits
    → ((j : ℕ) → j < i → is_set b j ≡ true)
    → Finds b (find_loop k i b)
unfolding find_loop
find_loop-Finds zero i b is e below = full refl λ j lt. below j (omega arith)
find_loop-Finds (suc k) i b is e below =
    rw (test_lem b i (omega arith)) (elim (Bool-cases (is_set b i)) [
      | inl t ↦ rw t (
          find_loop-Finds k (i + 1) b is (omega arith) λ j lt. elim (dec_lt j i) [
            | yes p ↦ below j p
            | no p ↦ let same : j ≡ i = omega arith in rw same t
          ])
      | inr f ↦
          let (b', m, u) = mark-Updated b i is (omega arith) in
          rw (f, m) (taken i b' refl (omega arith) f below u)
    ])

-- BitMap::Find on a valid bit map: -1 and no change when every bit is set, else the first clear
-- bit, which it sets.
pub find-Finds : (b : BitMap) → IsValid b → Finds b (find b)
unfolding find
find-Finds b is = find_loop-Finds b.num_bits 0 b is (omega arith) λ j lt. absurd (omega arith)

-- The loop of the constructor.
pub record Cleared (i : ℕ) (b b' : BitMap) : Type 0 where
  pub valid : IsValid b'
  pub same_size : b'.num_bits ≡ b.num_bits
  pub empty : (j : ℕ) → j < i → is_set b' j ≡ false

clear_loop-Cleared :
    (k i : ℕ) (b : BitMap)
    → IsValid b
    → i + k ≡ b.num_bits
    → ((j : ℕ) → j < i → is_set b j ≡ false)
    → (b' : BitMap) × (clear_loop k i b ≡ some b') × Cleared (i + k) b b'
unfolding clear_loop
clear_loop-Cleared zero i b is e below =
    (b, refl, record { valid = is; same_size = refl; empty = λ j lt. below j (omega arith) })
clear_loop-Cleared (suc k) i b is e below =
    let (c, m, u) = clear-Updated b i is (omega arith) in
    let (b', run, done) =
      clear_loop-Cleared k (i + 1) c u.valid (omega (arith, u.same_size))
        (λ j lt. ground (arith, u.bits j, below j)) in
    (
      b',
      rw m run,
      record {
        valid = done.valid;
        same_size = done.same_size ∙ u.same_size;
        empty = λ j lt. done.empty j (omega arith);
      },
    )

-- The constructor gives an empty bit map, whatever the allocated memory held.
pub create-Cleared :
    (nitems : ℕ) (memory : List ℕ)
    → length memory ≡ div_round_up nitems 32
    → (b : BitMap) × (create nitems memory ≡ some b)
      × IsValid b
      × (b.num_bits ≡ nitems)
      × ((j : ℕ) → j < nitems → is_set b j ≡ false)
unfolding create div_round_up
create-Cleared nitems memory e =
    let (b, run, done) =
      clear_loop-Cleared nitems 0
        (record { num_bits = nitems; num_words = div_round_up nitems 32; map = memory })
        (record { stored = omega arith; room = ground arith }) (omega arith)
        (λ j lt. absurd (omega arith)) in
    (b, run, done.valid, done.same_size, λ j lt. done.empty j (omega arith))
