-- ===== src/Cpu/Signed.antt =====
-- Signed addition, subtraction and comparison of code/machine/mipssim.cc against the numbers that
-- the words stand for.
use os_td_minf.Prelude.{
  ℕ, ◌+◌, ◌%◌, ◌^◌, ◌≤◌, ◌<◌, ◌≡◌, refl, ◌↔◌, ◌⊎◌, inl, inr, true, false, Option, some, arith,
  Bool-cases,
}
use os_td_minf.Machine.{Machine, ExceptionType, overflow_exception, set_reg}
use os_td_minf.Cpu.Word.{add32, sub32, lt_signed}
use os_td_minf.Cpu.Outcome.{Outcome, continues}
use os_td_minf.Cpu.Decode.{Instruction}
use os_td_minf.Cpu.Alu.{rs_of, rt_of}
use os_td_minf.Cpu.LoadStore.{traps}
use os_td_minf.Cpu.Execute.{add, addi, sub, add_overflows, addi_overflows, sub_overflows}

-- The number that a word stands for, plus 2 ^ 31.
abbrev pub bias : ℕ → ℕ
bias x = (x + 2 ^ 31) % 2 ^ 32

-- The result wanted is the number `n` with `n + offset = total`, both sides biased. If a word stands
-- for it, the instruction writes this word and goes on; otherwise it raises an overflow.
pub data Calculates (handler : ExceptionType → Machine → Option Machine) (m : Machine)
    (num pc_after total offset : ℕ) (r : Option Outcome) : Type 0 where
  fits :
      (s : ℕ)
      → s < 2 ^ 32
      → bias s + offset ≡ total
      → r ≡ some (continues (set_reg m num s) pc_after 0 0)
      → Calculates handler m num pc_after total offset r
  overflow :
      (total < offset) ⊎ (offset + 2 ^ 32 ≤ total)
      → r ≡ traps handler overflow_exception 0 m
      → Calculates handler m num pc_after total offset r

sum_range :
    (a b : ℕ)
    → a < 2 ^ 32
    → b < 2 ^ 32
    → add_overflows a b ≡ true
    → (bias a + bias b < 2 ^ 31) ⊎ (2 ^ 31 + 2 ^ 32 ≤ bias a + bias b)
sum_range a b h l e = ground arith

sum_exact :
    (a b : ℕ)
    → a < 2 ^ 32
    → b < 2 ^ 32
    → add_overflows a b ≡ false
    → bias (add32 a b) + 2 ^ 31 ≡ bias a + bias b
sum_exact a b h l e = ground arith

-- ADDI looks at the other operand's sign, which is the same.
addi_as_add : (a b : ℕ) → addi_overflows a b ≡ add_overflows a b
addi_as_add a b = ground arith

difference_range :
    (a b : ℕ)
    → a < 2 ^ 32
    → b < 2 ^ 32
    → sub_overflows a b ≡ true
    → (bias a + 2 ^ 31 < bias b) ⊎ (bias b + 2 ^ 32 ≤ bias a + 2 ^ 31)
difference_range a b h l e = ground arith

difference_exact :
    (a b : ℕ)
    → a < 2 ^ 32
    → b < 2 ^ 32
    → sub_overflows a b ≡ false
    → bias (sub32 a b) + bias b ≡ bias a + 2 ^ 31
difference_exact a b h l e = ground arith

lt_signed_iff : (a b : ℕ) → a < 2 ^ 32 → b < 2 ^ 32 → (lt_signed a b ≡ true) ↔ (bias a < bias b)
lt_signed_iff a b h l = ground arith

module _ (handler : ExceptionType → Machine → Option Machine) (m : Machine) (i : Instruction)
    (pc_after : ℕ) (rs_small : rs_of m i < 2 ^ 32) where
  -- ADD writes the sum of the two numbers when a word stands for it, and raises OverflowException
  -- exactly when none does.
  pub add-Calculates :
      rt_of m i < 2 ^ 32
      → Calculates handler m i.rd pc_after
          (bias (rs_of m i) + bias (rt_of m i))
          (2 ^ 31)
          (add handler m i pc_after)
  unfolding add
  add-Calculates rt_small = elim (Bool-cases (add_overflows (rs_of m i) (rt_of m i))) [
    | inl e ↦ simp e (overflow (sum_range (rs_of m i) (rt_of m i) rs_small rt_small e) refl)
    | inr e ↦ simp e (
        fits (add32 (rs_of m i) (rt_of m i)) (omega arith)
          (sum_exact (rs_of m i) (rt_of m i) rs_small rt_small e) refl)
  ]

  -- ADDI writes the sum of the register's number and the immediate's when a word stands for it, and
  -- raises OverflowException exactly when none does.
  pub addi-Calculates :
      i.extra < 2 ^ 32
      → Calculates handler m i.rt pc_after
          (bias (rs_of m i) + bias i.extra)
          (2 ^ 31)
          (addi handler m i pc_after)
  unfolding addi
  addi-Calculates small = elim (Bool-cases (add_overflows (rs_of m i) i.extra)) [
    | inl e ↦
        simp (addi_as_add (rs_of m i) i.extra, e)
          (overflow (sum_range (rs_of m i) i.extra rs_small small e) refl)
    | inr e ↦
        simp (addi_as_add (rs_of m i) i.extra, e)
          (fits (add32 (rs_of m i) i.extra) (omega arith)
            (sum_exact (rs_of m i) i.extra rs_small small e) refl)
  ]

  -- SUB writes the difference of the two numbers when a word stands for it, and raises
  -- OverflowException exactly when none does.
  pub sub-Calculates :
      rt_of m i < 2 ^ 32
      → Calculates handler m i.rd pc_after
          (bias (rs_of m i) + 2 ^ 31)
          (bias (rt_of m i))
          (sub handler m i pc_after)
  unfolding sub
  sub-Calculates rt_small = elim (Bool-cases (sub_overflows (rs_of m i) (rt_of m i))) [
    | inl e ↦ simp e (overflow (difference_range (rs_of m i) (rt_of m i) rs_small rt_small e) refl)
    | inr e ↦ simp e (
        fits (sub32 (rs_of m i) (rt_of m i)) (omega arith)
          (difference_exact (rs_of m i) (rt_of m i) rs_small rt_small e) refl)
  ]
