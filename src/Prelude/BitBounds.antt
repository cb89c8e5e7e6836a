-- ===== src/Prelude/BitBounds.antt =====
-- The operations `|`, `&` and `^` on two words give a word.
use Prim.Native.Nat.{
  ℕ, zero, suc, ◌/◌, ◌%◌, ◌^◌, ◌≤◌, ◌<◌, min, max, differ, bit_and, bit_or, bit_xor, digits,
  bit_and-bitwise, bit_or-bitwise, bit_xor-bitwise,
}
use mathlib.Core.Path.{subst, sym}
use native.Mathlib.Nat.{pow-suc}
use native.Mathlib.Omega.{arith}

module _ (rest : ℕ → ℕ) (op : ℕ → ℕ → ℕ) (rest_le : (y : ℕ) → rest y ≤ y)
    (op_le : (x y : ℕ) → x ≤ 1 → y ≤ 1 → op x y ≤ 1) where
  digits-lt : (rounds k x y : ℕ) → x < 2 ^ k → y < 2 ^ k → digits rest op rounds x y < 2 ^ k
  digits-lt zero k x y h l = omega (arith, rest_le y)
  digits-lt (suc rounds) k zero y h l = omega (arith, rest_le y)
  digits-lt (suc rounds) zero (suc x) y h l = absurd (omega arith)
  digits-lt (suc rounds) (suc k) (suc x) y h l = omega (
    arith,
    pow-suc 2 k,
    digits-lt rounds k (suc x / 2) (y / 2) (omega (arith, pow-suc 2 k))
        (omega (arith, pow-suc 2 k)),
    op_le (suc x % 2) (y % 2) (omega arith) (omega arith),
  )

differ-le : (x y : ℕ) → x ≤ 1 → y ≤ 1 → differ x y ≤ 1
differ-le zero y h l = l
differ-le (suc x) zero h l = h
differ-le (suc zero) (suc zero) h l = omega arith
differ-le (suc zero) (suc (suc y)) h l = absurd (omega arith)
differ-le (suc (suc x)) (suc y) h l = absurd (omega arith)

pub bit_and-lt : (k x y : ℕ) → x < 2 ^ k → y < 2 ^ k → bit_and x y < 2 ^ k
bit_and-lt k x y h l =
    subst (λ v. v < 2 ^ k) (sym (bit_and-bitwise x y))
      (digits-lt (λ y. 0) min (λ y. omega arith) (λ x y p q. omega arith) x k x y h l)

pub bit_or-lt : (k x y : ℕ) → x < 2 ^ k → y < 2 ^ k → bit_or x y < 2 ^ k
bit_or-lt k x y h l =
    subst (λ v. v < 2 ^ k) (sym (bit_or-bitwise x y))
      (digits-lt (λ y. y) max (λ y. omega arith) (λ x y p q. omega arith) x k x y h l)

pub bit_xor-lt : (k x y : ℕ) → x < 2 ^ k → y < 2 ^ k → bit_xor x y < 2 ^ k
bit_xor-lt k x y h l =
    subst (λ v. v < 2 ^ k) (sym (bit_xor-bitwise x y))
      (digits-lt (λ y. y) differ (λ y. omega arith) differ-le x k x y h l)
