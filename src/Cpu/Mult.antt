-- ===== src/Cpu/Mult.antt =====
-- Mult of code/machine/mipssim.cc: 32-bit by 32-bit multiplication, bit by bit.
use os_td_minf.Prelude.{
  ℕ, zero, suc, ◌+◌, ◌*◌, ◌/◌, ◌%◌, ◌^◌, Bool, true, false, not, ◌||◌, ltb, ◌==◌, if◌then◌else◌,
}
use os_td_minf.Cpu.Word.{wrap, is_negative, negate, not32}

-- The variables of the loop. `a` has been made positive, and is shifted to the right.
pub record MultState : Type 0 where
  pub a : ℕ
  pub b_lo : ℕ
  pub b_hi : ℕ
  pub lo : ℕ
  pub hi : ℕ

-- `if (a & 1) { … }` without its `break`
abbrev pub accumulate : MultState → MultState
accumulate s =
    let lo' = wrap (s.lo + s.b_lo) in
    let carried = if ltb lo' s.b_lo then wrap (s.hi + 1) else s.hi in
    record s { lo = lo'; hi = wrap (carried + s.b_hi) }

-- `bHi <<= 1; if (bLo & 0x80000000) bHi |= 1; bLo <<= 1; a >>= 1;`, where `>>` copies the sign
abbrev pub shift : MultState → MultState
shift s = record s {
  b_hi = wrap (s.b_hi * 2) + (if is_negative s.b_lo then 1 else 0);
  b_lo = wrap (s.b_lo * 2);
  a = s.a / 2 + (if is_negative s.a then 2 ^ 31 else 0);
}

-- The rounds left of `for (i = 0; i < 32; i++)`.
unfoldable pub mult_loop : ℕ → MultState → MultState
mult_loop zero s = s
mult_loop (suc k) s =
    let skipped = mult_loop k (shift s) in
    let added = mult_loop k (shift (accumulate s)) in
    if s.a % 2 == 1 then (if s.a / 2 == 0 then accumulate s else added) else skipped

abbrev pub finish : Bool → MultState → ℕ × ℕ
finish false s = (s.hi, s.lo)
finish true s =
    let lo' = wrap (not32 s.lo + 1) in (if lo' == 0 then wrap (not32 s.hi + 1) else not32 s.hi, lo')

abbrev pub start : ℕ → ℕ → MultState
start a b = record { a = a; b_lo = b; b_hi = 0; lo = 0; hi = 0 }

abbrev pub absolute : ℕ → ℕ
absolute x = if is_negative x then negate x else x

-- The words at `hiPtr` and `loPtr`.
unfoldable pub mult : ℕ → ℕ → Bool → ℕ × ℕ
mult a b signed_arith =
    if a == 0 || b == 0
    then (0, 0)
    else if signed_arith
    then finish (if is_negative a then not (is_negative b) else is_negative b)
        (mult_loop 32 (start (absolute a) (absolute b)))
    else finish false (mult_loop 32 (start a b))
