-- ===== src/Cpu/Product.antt =====
-- The multiplier of code/machine/mipssim.cc computes the double-length product.
use os_td_minf.Prelude.{
  ℕ, zero, suc, ◌+◌, ◌-◌, ◌*◌, ◌/◌, ◌%◌, ◌^◌, ◌≤◌, ◌<◌, ◌≡◌, sym, ap, ◌∙◌, inl, inr, true, false,
  arith, ◌==◌, Bool-cases,
}
use native.Mathlib.Nat.{
  mul-add-mod_self_right, mod-eq_of_lt, div-add-mod', mod-lt, add-mul-mod_self_right, pow-suc,
}
use os_td_minf.Prelude.Bits.{pow_pos, pow_add}
use os_td_minf.Cpu.Word.{is_negative}
use os_td_minf.Cpu.Mult.{MultState, accumulate, shift, mult_loop}

-- Every word fits.
pub record IsSmall (s : MultState) : Type 0 where
  pub a_bound : s.a < 2 ^ 32
  pub b_lo_bound : s.b_lo < 2 ^ 32
  pub b_hi_bound : s.b_hi < 2 ^ 32
  pub lo_bound : s.lo < 2 ^ 32
  pub hi_bound : s.hi < 2 ^ 32

abbrev pub sum : MultState → ℕ
sum s = s.hi * 2 ^ 32 + s.lo

abbrev addend : MultState → ℕ
addend s = s.b_hi * 2 ^ 32 + s.b_lo

abbrev pub Congruent : ℕ → ℕ → Type 0
Congruent x y = (t : ℕ) × (x + t * 2 ^ 64 ≡ y)

accumulate-IsSmall : (s : MultState) → IsSmall s → IsSmall (accumulate s)
accumulate-IsSmall s small = record {
  a_bound = small.a_bound;
  b_lo_bound = small.b_lo_bound;
  b_hi_bound = small.b_hi_bound;
  lo_bound = ground arith;
  hi_bound = ground arith;
}

shift-IsSmall : (s : MultState) → IsSmall s → IsSmall (shift s)
shift-IsSmall s small = record {
  a_bound = ground arith;
  b_lo_bound = ground arith;
  b_hi_bound = ground arith;
  lo_bound = small.lo_bound;
  hi_bound = small.hi_bound;
}

accumulate_lem : (s : MultState) → IsSmall s → Congruent (sum (accumulate s)) (sum s + addend s)
accumulate_lem s small = ((sum s + addend s) / 2 ^ 64, ground arith)

shift_lem : (s : MultState) → IsSmall s → Congruent (addend (shift s)) (2 * addend s)
shift_lem s small = (2 * addend s / 2 ^ 64, ground arith)

pub mod_of_sum : (q r m : ℕ) → r < m → (q * m + r) % m ≡ r
mod_of_sum q r m small = mul-add-mod_self_right q m r ∙ mod-eq_of_lt small

mod_double : (a p : ℕ) → 0 < p → a % (2 * p) ≡ a % 2 + 2 * (a / 2 % p)
mod_double a p positive =
    let e : a ≡ a / 2 / p * (2 * p) + (a % 2 + 2 * (a / 2 % p)) =
      grind (arith, div-add-mod' (a / 2) p) in
    ap (λ x. x % (2 * p)) e
    ∙ mod_of_sum (a / 2 / p) (a % 2 + 2 * (a / 2 % p)) (2 * p)
        (omega (arith, mod-lt (a / 2) positive))

pow_split : (k : ℕ) → k ≤ 31 → 2 ^ 31 ≡ 2 ^ (31 - k) * 2 ^ k
pow_split k few = let e : 31 ≡ 31 - k + k = omega arith in ap (λ n. 2 ^ n) e ∙ pow_add (31 - k) k

-- The copy of the sign stays above the bits still to come.
drop_sign : (k h : ℕ) → k ≤ 31 → (h + 2 ^ 31) % 2 ^ k ≡ h % 2 ^ k
drop_sign k h few =
    let e : 2 ^ 31 ≡ 2 ^ (31 - k) * 2 ^ k = pow_split k few in
    ap (λ x. (h + x) % 2 ^ k) e ∙ add-mul-mod_self_right h (2 ^ (31 - k)) (2 ^ k)

round_bits :
    (k : ℕ) → k < 32 → (s : MultState) → s.a % 2 ^ suc k ≡ s.a % 2 + 2 * ((shift s).a % 2 ^ k)
round_bits k small s =
    ap (λ p. s.a % p) (omega (arith, pow-suc 2 k))
    ∙ mod_double s.a (2 ^ k) (pow_pos k)
    ∙ ap (λ x. s.a % 2 + 2 * x)
        (elim (Bool-cases (is_negative s.a)) [
          | inl e ↦ simp e (sym (drop_sign k (s.a / 2) (omega arith)))
          | inr e ↦ let z : s.a / 2 ≡ s.a / 2 + 0 = omega arith in simp e (ap (λ x. x % 2 ^ k) z)
        ])

round_sum :
    (x t acc b r b' d : ℕ)
    → x + t * 2 ^ 64 ≡ acc + r * b'
    → b' + d * 2 ^ 64 ≡ 2 * b
    → x + (t + r * d) * 2 ^ 64 ≡ acc + 2 * r * b
round_sum x t acc b r b' d h k = grind (arith, ap (λ n. r * n) k)

round_add :
    (x t acc acc' b r c : ℕ)
    → x + t * 2 ^ 64 ≡ acc' + 2 * r * b
    → acc' + c * 2 ^ 64 ≡ acc + b
    → x + (t + c) * 2 ^ 64 ≡ acc + (1 + 2 * r) * b
round_add x t acc acc' b r c h k = grind arith

abbrev Product : ℕ → MultState → MultState → Type 0
Product k s s' = IsSmall s' × Congruent (sum s') (sum s + s.a % 2 ^ k * addend s)

skipped_round :
    (k : ℕ)
    → k < 32
    → (s s' : MultState) → IsSmall s
    → s.a % 2 ≡ 0
    → Product k (shift s) s'
    → Product (suc k) s s'
skipped_round k few s s' small even (small', (t, e)) =
    let (d, twice) = shift_lem s small in
    let total =
      round_sum (sum s') t (sum s) (addend s) ((shift s).a % 2 ^ k) (addend (shift s)) d e twice in
    let bits = round_bits k few s in
    (small', (t + (shift s).a % 2 ^ k * d, grind (arith, bits, even, total)))

added_round :
    (k : ℕ)
    → k < 32
    → (s s' : MultState) → IsSmall s
    → s.a % 2 ≡ 1
    → Product k (shift (accumulate s)) s'
    → Product (suc k) s s'
added_round k few s s' small odd (small', (t, e)) =
    let (d, twice) = shift_lem s small in
    let (c, once) = accumulate_lem s small in
    let r = (shift s).a % 2 ^ k in
    let total =
      round_sum (sum s') t (sum (accumulate s)) (addend s) r (addend (shift s)) d e twice in
    let bits = round_bits k few s in
    (
      small',
      (
        t + r * d + c,
        (let coefficient : s.a % 2 ^ suc k ≡ 1 + 2 * r = omega (arith, bits) in
            rw coefficient (
              round_add (sum s') (t + r * d) (sum s) (sum (accumulate s)) (addend s) r c total
                once)),
      ),
    )

last_round :
    (k : ℕ)
    → k < 32
    → (s : MultState) → IsSmall s
    → s.a % 2 ≡ 1
    → s.a / 2 ≡ 0
    → Product (suc k) s (accumulate s)
last_round k few s small odd zero' =
    let (c, once) = accumulate_lem s small in
    let a_one : s.a ≡ 1 = omega arith in
    let one : s.a % 2 ^ suc k ≡ 1 = mod-eq_of_lt (omega (arith, pow-suc 2 k, pow_pos k)) ∙ a_one in
    (accumulate-IsSmall s small, (c, grind (arith, one, once)))

pub mult_loop_lem : (k : ℕ) → k ≤ 32 → (s : MultState) → IsSmall s → Product k s (mult_loop k s)
unfolding mult_loop
mult_loop_lem zero few s small = (small, (0, grind arith))
mult_loop_lem (suc k) few s small =
    let skipped = skipped_round k few s (mult_loop k (shift s)) small in
    let added = added_round k few s (mult_loop k (shift (accumulate s))) small in
    let last = last_round k few s small in
    let odd : (s.a % 2 == 1) ≡ true → s.a % 2 ≡ 1 = λ e. ground arith in
    let ev : (s.a % 2 == 1) ≡ false → s.a % 2 ≡ 0 = λ e. ground arith in
    let iszero : (s.a / 2 == 0) ≡ true → s.a / 2 ≡ 0 = λ e. ground arith in
    let rec_skipped = mult_loop_lem k (omega arith) (shift s) (shift-IsSmall s small) in
    let rec_added =
      mult_loop_lem k (omega arith) (shift (accumulate s))
        (shift-IsSmall (accumulate s) (accumulate-IsSmall s small)) in
    elim (Bool-cases (s.a % 2 == 1)) [
      | inl e ↦ elim (Bool-cases (s.a / 2 == 0)) [
        | inl f ↦ simp (e, f) (last (odd e) (iszero f))
        | inr f ↦ simp (e, f) (added (odd e) rec_added)
      ]
      | inr e ↦ simp e (skipped (ev e) rec_skipped)
    ]
