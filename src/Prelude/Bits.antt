-- ===== src/Prelude/Bits.antt =====
-- Bits of unsigned numbers: bit `i` of `n`, and what `|`, `&` and `^` do to each bit.
use Prim.Native.Nat.{
  ℕ, zero, suc, ◌+◌, ◌-◌, ◌*◌, ◌/◌, ◌%◌, ◌^◌, ◌≤◌, ◌<◌, min, max, bit_and, bit_or, digits,
  bit_and-bitwise, bit_or-bitwise,
}
use mathlib.Core.Path.{sym, ◌∙◌, ◌≡◌, refl, ap}
use mathlib.Core.Logic.{◌≢◌}
use native.Mathlib.Nat.{pow-suc}
use native.Mathlib.Decide.{ℕ_discrete}
use native.Mathlib.Omega.{arith}

abbrev pub bit : ℕ → ℕ → ℕ
bit n zero = n % 2
bit n (suc i) = bit (n / 2) i

-- The native operations run over the digits for as many rounds as the first number says; any
-- larger count of rounds gives the same, so each of them obeys its own halving law.
module _ (rest : ℕ → ℕ) (op : ℕ → ℕ → ℕ) where
  one_more :
      (rounds x y : ℕ) → x ≤ rounds → digits rest op (suc rounds) x y ≡ digits rest op rounds x y
  one_more rounds zero y few = ends rounds ∙ sym (ends' rounds)
    where
      ends : (r : ℕ) → digits rest op (suc r) 0 y ≡ rest y
      ends r = refl

      ends' : (r : ℕ) → digits rest op r 0 y ≡ rest y
      ends' zero = refl
      ends' (suc r) = refl
  one_more zero (suc x) y few = elim few [ ]
  one_more (suc rounds) (suc x) y few =
      ap (λ t. t * 2 + op (suc x % 2) (y % 2)) (one_more rounds (suc x / 2) (y / 2) (omega arith))

  many_more :
      (more few x y : ℕ) → x ≤ few → few ≤ more → digits rest op more x y ≡ digits rest op few x y
  many_more zero few x y h k = let e : 0 ≡ few = omega arith in ap (λ r. digits rest op r x y) e
  many_more (suc more) few x y h k = elim (ℕ_discrete few (suc more)) [
    | yes e ↦ ap (λ r. digits rest op r x y) (sym e)
    | no ne ↦ one_more more x y (omega arith) ∙ many_more more few x y h (omega arith)
  ]

  halve :
      ((y : ℕ) → rest y ≡ rest (y / 2) * 2 + op 0 (y % 2))
      → (x y : ℕ)
      → digits rest op x x y ≡ digits rest op (x / 2) (x / 2) (y / 2) * 2 + op (x % 2) (y % 2)
  halve base zero y = base y
  halve base (suc x) y =
      ap (λ t. t * 2 + op (suc x % 2) (y % 2))
        (many_more x (suc x / 2) (suc x / 2) (y / 2) (omega arith) (omega arith))

pub halve_or : (x y : ℕ) → bit_or x y ≡ bit_or (x / 2) (y / 2) * 2 + max (x % 2) (y % 2)
halve_or x y =
    bit_or-bitwise x y
    ∙ halve (λ y. y) max (λ y. omega arith) x y
    ∙ ap (λ t. t * 2 + max (x % 2) (y % 2)) (sym (bit_or-bitwise (x / 2) (y / 2)))

pub halve_and : (x y : ℕ) → bit_and x y ≡ bit_and (x / 2) (y / 2) * 2 + min (x % 2) (y % 2)
halve_and x y =
    bit_and-bitwise x y
    ∙ halve (λ y. 0) min (λ y. omega arith) x y
    ∙ ap (λ t. t * 2 + min (x % 2) (y % 2)) (sym (bit_and-bitwise (x / 2) (y / 2)))

pub bit-le-one : (n i : ℕ) → bit n i ≤ 1
bit-le-one n zero = omega arith
bit-le-one n (suc i) = bit-le-one (n / 2) i

pub bit-zero : (i : ℕ) → bit 0 i ≡ 0
bit-zero zero = refl
bit-zero (suc i) = bit-zero i

pub bit-bit_or : (a b i : ℕ) → bit (bit_or a b) i ≡ max (bit a i) (bit b i)
bit-bit_or a b zero = omega (arith, halve_or a b)
bit-bit_or a b (suc i) =
    let half : bit_or a b / 2 ≡ bit_or (a / 2) (b / 2) = omega (arith, halve_or a b) in
    rw half (bit-bit_or (a / 2) (b / 2) i)

pub bit-bit_and : (a b i : ℕ) → bit (bit_and a b) i ≡ min (bit a i) (bit b i)
bit-bit_and a b zero = omega (arith, halve_and a b)
bit-bit_and a b (suc i) =
    let half : bit_and a b / 2 ≡ bit_and (a / 2) (b / 2) = omega (arith, halve_and a b) in
    rw half (bit-bit_and (a / 2) (b / 2) i)

half_pow : (k : ℕ) → 2 ^ suc k / 2 ≡ 2 ^ k
half_pow k = omega (arith, pow-suc 2 k)

pub bit-pow_self : (i : ℕ) → bit (2 ^ i) i ≡ 1
bit-pow_self zero = refl
bit-pow_self (suc i) = rw half_pow (bit-pow_self i)

pub bit-pow_ne : (k i : ℕ) → k ≢ i → bit (2 ^ k) i ≡ 0
bit-pow_ne zero zero h = absurd (h refl)
bit-pow_ne zero (suc i) h = bit-zero i
bit-pow_ne (suc k) zero h = omega (arith, pow-suc 2 k)
bit-pow_ne (suc k) (suc i) h = rw half_pow (bit-pow_ne k i (omega arith))

-- The bits of `~x`, in a word of `k` bits.
pub bit-complement : (k x i : ℕ) → x < 2 ^ k → i < k → bit (2 ^ k - 1 - x) i ≡ 1 - bit x i
bit-complement zero x i h lt = absurd (omega arith)
bit-complement (suc k) x zero h lt = omega (arith, pow-suc 2 k)
bit-complement (suc k) x (suc i) h lt =
    let half : (2 ^ suc k - 1 - x) / 2 ≡ 2 ^ k - 1 - x / 2 = omega (arith, pow-suc 2 k) in
    rw half (bit-complement k (x / 2) i (omega (arith, pow-suc 2 k)) (omega arith))

zero_mask : (rounds w : ℕ) → w ≤ rounds → bit_and w 0 ≡ 0
zero_mask zero w few = omega (arith, ap (λ t. bit_and t 0) {x = w} {y = 0} (omega arith))
zero_mask (suc rounds) w few = elim (ℕ_discrete w 0) [
  | yes e ↦ rw e
  | no ne ↦ omega (arith, halve_and w 0, zero_mask rounds (w / 2) (omega arith))
]

-- `w & (1 << i)` is the bit, in its place.
pub bit_and-pow : (w i : ℕ) → bit_and w (2 ^ i) ≡ bit w i * 2 ^ i
bit_and-pow w zero = omega (arith, halve_and w 1, zero_mask (w / 2) (w / 2) (omega arith))
bit_and-pow w (suc i) = omega (
  arith,
  halve_and w (2 ^ suc i),
  ap (λ t. bit_and (w / 2) t) (half_pow i),
  pow-suc 2 i,
  ap (λ t. bit (w / 2) i * t) (pow-suc 2 i),
  bit_and-pow (w / 2) i,
)

pub pow_pos : (k : ℕ) → 0 < 2 ^ k
pow_pos zero = omega arith
pow_pos (suc k) = omega (arith, pow-suc 2 k, pow_pos k)

pub pow-lt : (i k : ℕ) → i < k → 2 ^ i < 2 ^ k
pow-lt i zero h = absurd (omega arith)
pow-lt zero (suc k) h = omega (arith, pow-suc 2 k, pow_pos k)
pow-lt (suc i) (suc k) h = omega (arith, pow-suc 2 k, pow-suc 2 i, pow-lt i k (omega arith))

pub pow_add : (i j : ℕ) → 2 ^ (i + j) ≡ 2 ^ i * 2 ^ j
pow_add i zero = grind arith
pow_add i (suc j) = grind (arith, pow_add i j, pow-suc 2 (i + j), pow-suc 2 j)
