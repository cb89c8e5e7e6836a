-- ===== src/Bitmap/Words.antt =====
-- What BitMap::Mark, Clear and Test do to each bit, through the words that hold the bits.
use Prim.Native.Nat.{bit_or, bit_and}
use os_td_minf.Prelude.{
  ℕ, ◌*◌, ◌/◌, ◌%◌, ◌^◌, ◌≤◌, ◌<◌, ◌≡◌, refl, ◌≢◌, Bool, true, false, some, pos, ◌==◌,
  if◌then◌else◌, length, length-set, get_or-set_self, get_or-set_ne, lt→ltb, arith,
}
use os_td_minf.Prelude.Bits.{
  bit, bit-le-one, bit-bit_or, bit-bit_and, bit-pow_self, bit-pow_ne, bit-complement, bit_and-pow,
  pow_pos, pow-lt,
}
use os_td_minf.Bitmap.Defs.{BitMap, word, mask, complement, set_word, mark, clear, test}

-- The array holds every bit.
pub record IsValid (b : BitMap) : Type 0 where
  pub stored : b.num_words ≡ length b.map
  pub room : b.num_bits ≤ 32 * length b.map

-- The set of numbers that a bit map stands for.
unfoldable pub is_set : BitMap → ℕ → Bool
is_set b i = bit (word b i) (i % 32) == 1

-- `b'` is `b` with bit `i` at `v`, every other bit as it was.
pub record Updated (b : BitMap) (i : ℕ) (v : Bool) (b' : BitMap) : Type 0 where
  pub valid : IsValid b'
  pub same_size : b'.num_bits ≡ b.num_bits
  pub same_words : b'.num_words ≡ b.num_words
  pub bits : (j : ℕ) → is_set b' j ≡ (if i == j then v else is_set b j)

word-set_self :
    (b : BitMap) (i j w : ℕ) → i / 32 < length b.map → i / 32 ≡ j / 32 → word (set_word b i w) j ≡ w
word-set_self b i j w h e = rw (← e) (get_or-set_self b.map (i / 32) w 0 h)

word-set_ne : (b : BitMap) (i j w : ℕ) → i / 32 ≢ j / 32 → word (set_word b i w) j ≡ word b j
word-set_ne b i j w ne = get_or-set_ne b.map w 0 ne

set_word-Updated :
    (b : BitMap) (i w : ℕ) (v : Bool)
    → IsValid b
    → i < b.num_bits
    → (bit w (i % 32) == 1) ≡ v
    → ((k : ℕ) → k < 32 → i % 32 ≢ k → bit w k ≡ bit (word b i) k)
    → Updated b i v (set_word b i w)
unfolding is_set
set_word-Updated b i w v is lt here others = record {
  valid = record {
    stored = omega (arith, is.stored, length-set {0} b.map (i / 32) w);
    room = omega (arith, is.room, length-set {0} b.map (i / 32) w);
  };
  same_size = refl;
  same_words = refl;
  bits = λ j. ground (arith, word-set_self b i j w, word-set_ne b i j w, others (j % 32));
}

mask-lt : (i : ℕ) → mask i < 2 ^ 32
mask-lt i = pow-lt (i % 32) 32 (omega arith)

-- BitMap::Mark sets the bit it is given and no other.
pub mark-Updated :
    (b : BitMap) (i : ℕ)
    → IsValid b
    → i < b.num_bits
    → (b' : BitMap) × (mark b (pos i) ≡ some b') × Updated b i true b'
unfolding mark
mark-Updated b i is lt = (
  set_word b i (bit_or (word b i) (mask i)),
  rw (lt→ltb i b.num_bits lt),
  set_word-Updated b i (bit_or (word b i) (mask i)) true is lt
      (ground (
        arith,
        bit-bit_or (word b i) (mask i) (i % 32),
        bit-pow_self (i % 32),
        bit-le-one (word b i) (i % 32),
      ))
      λ k small ne. ground (arith, bit-bit_or (word b i) (mask i) k, bit-pow_ne (i % 32) k),
)

-- BitMap::Clear clears the bit it is given and no other.
pub clear-Updated :
    (b : BitMap) (i : ℕ)
    → IsValid b
    → i < b.num_bits
    → (b' : BitMap) × (clear b (pos i) ≡ some b') × Updated b i false b'
unfolding clear
clear-Updated b i is lt = (
  set_word b i (bit_and (word b i) (complement (mask i))),
  rw (lt→ltb i b.num_bits lt),
  set_word-Updated b i (bit_and (word b i) (complement (mask i))) false is lt
      (ground (
        arith,
        bit-bit_and (word b i) (complement (mask i)) (i % 32),
        bit-pow_self (i % 32),
        bit-complement 32 (mask i) (i % 32) (mask-lt i) (omega arith),
        bit-le-one (word b i) (i % 32),
      ))
      λ k small ne. ground (
        arith,
        bit-bit_and (word b i) (complement (mask i)) k,
        bit-pow_ne (i % 32) k,
        bit-complement 32 (mask i) k (mask-lt i) small,
        bit-le-one (word b i) k,
      ),
)

-- BitMap::Test reads the bit it is given.
pub test_lem : (b : BitMap) (i : ℕ) → i < b.num_bits → test b (pos i) ≡ some (is_set b i)
unfolding test is_set
test_lem b i lt = rw (lt→ltb i b.num_bits lt) (
    ground
      (arith, bit_and-pow (word b i) (i % 32), bit-le-one (word b i) (i % 32), pow_pos (i % 32)))
