-- ===== src/Bitmap/Defs.antt =====
-- The code of code/userprog/bitmap.cc. BitMap::Print only prints, and is left out.
use Prim.Native.Nat.{bit_or, bit_and}
use os_td_minf.Prelude.{
  ℕ, zero, suc, ◌+◌, ◌-◌, ◌/◌, ◌%◌, ◌^◌, Bool, false, not, Option, some, List, ℤ, pos, negsuc, ltb,
  ◌==◌, if◌then◌else◌, ◌>>=◌, ◌>>◌, assert, get_or, set,
}

abbrev pub bits_in_word : ℕ
bits_in_word = 32

-- divRoundUp of utility.h.
unfoldable pub div_round_up : ℕ → ℕ → ℕ
div_round_up n s = n / s + (if ltb 0 (n % s) then 1 else 0)

-- `map` is an array of `unsigned int`; an access to it never leaves it (see Bitmap.Words).
pub record BitMap : Type 0 where
  pub num_bits : ℕ
  pub num_words : ℕ
  pub map : List ℕ

-- `which >= 0 && which < numBits`
abbrev pub in_range : BitMap → ℤ → Bool
in_range b (pos i) = ltb i b.num_bits
in_range b (negsuc i) = false

abbrev pub word : BitMap → ℕ → ℕ
word b i = get_or b.map (i / bits_in_word) 0

-- 1 << (which % BitsInWord)
abbrev pub mask : ℕ → ℕ
mask i = 2 ^ (i % bits_in_word)

-- `~` on a 32-bit word
abbrev pub complement : ℕ → ℕ
complement x = 2 ^ 32 - 1 - x

abbrev pub set_word : BitMap → ℕ → ℕ → BitMap
set_word b i w = record b { map = set b.map (i / bits_in_word) w }

abbrev pub index_of : ℤ → ℕ
index_of (pos i) = i
index_of (negsuc i) = 0

unfoldable pub mark : BitMap → ℤ → Option BitMap
mark b which = do
  assert (in_range b which)
  some (set_word b (index_of which) (bit_or (word b (index_of which)) (mask (index_of which))))

unfoldable pub clear : BitMap → ℤ → Option BitMap
clear b which = do
  assert (in_range b which)
  some (
      set_word b (index_of which)
        (bit_and (word b (index_of which)) (complement (mask (index_of which)))))

unfoldable pub test : BitMap → ℤ → Option Bool
test b which = do
  assert (in_range b which)
  some (not (bit_and (word b (index_of which)) (mask (index_of which)) == 0))

-- for (i = i; k rounds; i++) Clear (i);
unfoldable pub clear_loop : ℕ → ℕ → BitMap → Option BitMap
clear_loop zero i b = some b
clear_loop (suc k) i b = do b' ← clear b (pos i); clear_loop k (i + 1) b'

-- The constructor. `memory` is what `new unsigned int[numWords]` holds before it is written.
unfoldable pub create : ℕ → List ℕ → Option BitMap
unfolding div_round_up
create nitems memory =
    clear_loop nitems 0
      (record { num_bits = nitems; num_words = div_round_up nitems bits_in_word; map = memory })

-- The new bit map, and the bit found or -1.
unfoldable pub find_loop : ℕ → ℕ → BitMap → Option (BitMap × ℤ)
find_loop zero i b = some (b, negsuc 0)
find_loop (suc k) i b = do
  taken ← test b (pos i)
  let rest = find_loop k (i + 1) b
  let found = mark b (pos i) >>= λ b'. some (b', pos i)
  if taken then rest else found

unfoldable pub find : BitMap → Option (BitMap × ℤ)
find b = find_loop b.num_bits 0 b

unfoldable pub num_clear_loop : ℕ → ℕ → ℕ → BitMap → Option ℕ
num_clear_loop zero i count b = some count
num_clear_loop (suc k) i count b = do
  taken ← test b (pos i)
  num_clear_loop k (i + 1) (if taken then count else count + 1) b

unfoldable pub num_clear : BitMap → Option ℕ
num_clear b = num_clear_loop b.num_bits 0 0 b
