-- ===== src/Cpu/Multiplier.antt =====
-- The result of Mult of code/machine/mipssim.cc.
use os_td_minf.Prelude.{
  ℕ, ◌+◌, ◌-◌, ◌*◌, ◌%◌, ◌^◌, ◌<◌, ◌≡◌, refl, ap, ◌∙◌, inl, inr, Bool, true, false, not, ◌&&◌, ◌||◌,
  arith, ◌==◌, if◌then◌else◌, ==_iff, Bool-cases,
}
use native.Mathlib.Nat.{mod-eq_of_lt}
use os_td_minf.Cpu.Word.{is_negative, negate}
use os_td_minf.Cpu.Mult.{MultState, mult_loop, finish, start, absolute, mult}
use os_td_minf.Cpu.Product.{IsSmall, sum, Congruent, mult_loop_lem}

-- A word as a 64-bit pattern.
abbrev pub extend : Bool → ℕ → ℕ
extend signed_arith x = if signed_arith && is_negative x then x + (2 ^ 64 - 2 ^ 32) else x

-- Two words that hold a 64-bit pattern.
pub record Holds (r : ℕ × ℕ) (value : ℕ) : Type 0 where
  pub hi_bound : r.0 < 2 ^ 32
  pub lo_bound : r.1 < 2 ^ 32
  pub together : r.0 * 2 ^ 32 + r.1 ≡ value

product :
    (a b : ℕ)
    → a < 2 ^ 32
    → b < 2 ^ 32
    → IsSmall (mult_loop 32 (start a b)) × Congruent (sum (mult_loop 32 (start a b))) (a * b)
product a b a_small b_small =
    let (small, (t, e)) = mult_loop_lem 32 (omega arith) (start a b) (record {
      a_bound = a_small;
      b_lo_bound = b_small;
      b_hi_bound = omega arith;
      lo_bound = omega arith;
      hi_bound = omega arith;
    }) in
    (small, (t, grind (arith, e, mod-eq_of_lt a_small)))

plain_finish :
    (s : MultState)
    → IsSmall s
    → (v t : ℕ) → sum s + t * 2 ^ 64 ≡ v
    → Holds (finish false s) (v % 2 ^ 64)
plain_finish s small v t e = record {
  hi_bound = small.hi_bound;
  lo_bound = small.lo_bound;
  together = omega arith;
}

negated_finish :
    (s : MultState)
    → IsSmall s
    → (v t q : ℕ) → v + (sum s + t * 2 ^ 64) ≡ q * 2 ^ 64
    → Holds (finish true s) (v % 2 ^ 64)
negated_finish s small v t q e = record {
  hi_bound = ground arith;
  lo_bound = ground arith;
  together = ground arith;
}

opposite : (x a b : ℕ) → a + x ≡ 2 ^ 32 → (x + (2 ^ 64 - 2 ^ 32)) * b + a * b ≡ b * 2 ^ 64
opposite x a b e = grind (arith, ap (λ n. n * b) e)

same_remainder : (x y m n : ℕ) → x + m * 2 ^ 64 ≡ y + n * 2 ^ 64 → x % 2 ^ 64 ≡ y % 2 ^ 64
same_remainder x y m n e = omega arith

product_of_opposites :
    (x y a b : ℕ) → a + x ≡ 2 ^ 64 → b + y ≡ 2 ^ 64 → x * y % 2 ^ 64 ≡ a * b % 2 ^ 64
product_of_opposites x y a b e f =
    same_remainder (x * y) (a * b) a y (grind (arith, ap (λ n. n * y) e, ap (λ n. a * n) f))

both_opposite :
    (x y a b : ℕ)
    → a + x ≡ 2 ^ 32
    → b + y ≡ 2 ^ 32
    → (x + (2 ^ 64 - 2 ^ 32)) * (y + (2 ^ 64 - 2 ^ 32)) % 2 ^ 64 ≡ a * b % 2 ^ 64
both_opposite x y a b e f =
    product_of_opposites (x + (2 ^ 64 - 2 ^ 32)) (y + (2 ^ 64 - 2 ^ 32)) a b (omega arith)
      (omega arith)

module _ (a b : ℕ) (a_small : a < 2 ^ 32) (b_small : b < 2 ^ 32) where
  plus : Holds (finish false (mult_loop 32 (start a b))) (a * b % 2 ^ 64)
  plus =
      let (small, (t, e)) = product a b a_small b_small in
      plain_finish (mult_loop 32 (start a b)) small (a * b) t e

  minus :
      (v q : ℕ)
      → v + a * b ≡ q * 2 ^ 64
      → Holds (finish true (mult_loop 32 (start a b))) (v % 2 ^ 64)
  minus v q h =
      let (small, (t, e)) = product a b a_small b_small in
      negated_finish (mult_loop 32 (start a b)) small v t q (ap (λ n. v + n) e ∙ h)

magnitude_lem : (x : ℕ) → x < 2 ^ 32 → is_negative x ≡ true → negate x + x ≡ 2 ^ 32
magnitude_lem x small h = ground arith

signed_lem :
    (a b : ℕ)
    → a < 2 ^ 32
    → b < 2 ^ 32
    → Holds
        (finish
          (if is_negative a then not (is_negative b) else is_negative b)
          (mult_loop 32 (start (absolute a) (absolute b))))
        (extend true a * extend true b % 2 ^ 64)
signed_lem a b a_small b_small = elim (Bool-cases (is_negative a)) [
  | inl e ↦ elim (Bool-cases (is_negative b)) [
    | inl f ↦
        simp
          (
            e,
            f,
            both_opposite a b (negate a) (negate b) (magnitude_lem a a_small e)
                (magnitude_lem b b_small f),
          )
          (plus (negate a) (negate b) (omega arith) (omega arith))
    | inr f ↦
        simp (e, f)
          (minus (negate a) b (omega arith) b_small ((a + (2 ^ 64 - 2 ^ 32)) * b) b
            (opposite a (negate a) b (magnitude_lem a a_small e)))
  ]
  | inr e ↦ elim (Bool-cases (is_negative b)) [
    | inl f ↦
        simp (e, f)
          (minus a (negate b) a_small (omega arith) (a * (b + (2 ^ 64 - 2 ^ 32))) a
            (grind (arith, opposite b (negate b) a (magnitude_lem b b_small f))))
    | inr f ↦ simp (e, f) (plus a b a_small b_small)
  ]
]

extend_zero : (s : Bool) (x : ℕ) → x ≡ 0 → extend s x ≡ 0
extend_zero false x e = e
extend_zero true x e = ground arith

zero_factor : (s : Bool) (a b : ℕ) → (a == 0 || b == 0) ≡ true → extend s a * extend s b ≡ 0
zero_factor s a b e = elim (Bool-cases (a == 0)) [
  | inl f ↦ grind (arith, extend_zero s a ((==_iff a 0).0 f))
  | inr f ↦ grind (arith, extend_zero s b ((==_iff b 0).0 (simp f at e)))
]

-- The words that Mult leaves are the product of the two operands, as 64-bit patterns: sign-extended
-- when the multiplication is signed.
pub mult_lem :
    (a b : ℕ)
    → a < 2 ^ 32
    → b < 2 ^ 32
    → (signed_arith : Bool)
    → Holds (mult a b signed_arith) (extend signed_arith a * extend signed_arith b % 2 ^ 64)
unfolding mult
mult_lem a b a_small b_small signed_arith = elim (Bool-cases (a == 0 || b == 0)) [
  | inl e ↦ simp e (
      rw (zero_factor signed_arith a b e)
        (record { hi_bound = omega arith; lo_bound = omega arith; together = refl }))
  | inr e ↦ go signed_arith e
]
  where
    go :
        (s : Bool)
        → (a == 0 || b == 0) ≡ false
        → Holds (mult a b s) (extend s a * extend s b % 2 ^ 64)
    go false e = simp e (plus a b a_small b_small)
    go true e = simp e (signed_lem a b a_small b_small)
