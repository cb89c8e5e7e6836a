-- ===== src/Cpu/Word.antt =====
-- 32-bit arithmetic of code/machine/mipssim.cc: a register is its bit pattern, below 2 ^ 32. Signed
-- sums and shifts wrap round, as the simulator relies on.
use os_td_minf.Prelude.{
  ℕ, ◌+◌, ◌-◌, ◌*◌, ◌/◌, ◌%◌, ◌^◌, Bool, true, false, not, ltb, leb, if◌then◌else◌,
}

abbrev pub wrap : ℕ → ℕ
wrap x = x % 2 ^ 32

-- `x & SIGN_BIT`
abbrev pub is_negative : ℕ → Bool
is_negative x = leb (2 ^ 31) x

-- `(a ^ b) & SIGN_BIT`
abbrev pub signs_differ : ℕ → ℕ → Bool
signs_differ a b = if is_negative a then not (is_negative b) else is_negative b

-- `a < b` on `int`
abbrev pub lt_signed : ℕ → ℕ → Bool
lt_signed a b =
    if is_negative a
    then (if is_negative b then ltb a b else true)
    else (if is_negative b then false else ltb a b)

abbrev pub add32 : ℕ → ℕ → ℕ
add32 a b = wrap (a + b)

abbrev pub sub32 : ℕ → ℕ → ℕ
sub32 a b = wrap (a + 2 ^ 32 - b)

-- `-x`
abbrev pub negate : ℕ → ℕ
negate x = wrap (2 ^ 32 - x)

-- `~x`
abbrev pub not32 : ℕ → ℕ
not32 x = 2 ^ 32 - 1 - x

-- `x << k`
abbrev pub shift_left : ℕ → ℕ → ℕ
shift_left x k = wrap (x * 2 ^ k)

-- `x >> k` on `unsigned int`
abbrev pub shift_right : ℕ → ℕ → ℕ
shift_right x k = x / 2 ^ k

-- `x >> k` on `int`: copies of the sign come in from the left.
abbrev pub shift_right_signed : ℕ → ℕ → ℕ
shift_right_signed x k = if is_negative x then x / 2 ^ k + (2 ^ 32 - 2 ^ (32 - k)) else x / 2 ^ k

abbrev pub magnitude : ℕ → ℕ
magnitude x = if is_negative x then 2 ^ 32 - x else x

-- `a / b` on `int`, towards zero
abbrev pub div_signed : ℕ → ℕ → ℕ
div_signed a b =
    if signs_differ a b then negate (magnitude a / magnitude b) else magnitude a / magnitude b

-- `a % b` on `int`, with the sign of `a`
abbrev pub mod_signed : ℕ → ℕ → ℕ
mod_signed a b =
    if is_negative a then negate (magnitude a % magnitude b) else magnitude a % magnitude b

-- IndexToAddr
abbrev pub index_to_addr : ℕ → ℕ
index_to_addr x = shift_left x 2
