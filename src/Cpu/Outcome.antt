-- ===== src/Cpu/Outcome.antt =====
-- How a case of the switch of Machine::OneInstruction (code/machine/mipssim.cc) ends.
use os_td_minf.Prelude.{ℕ}
use os_td_minf.Machine.{Machine}

-- By `break`, with the machine and the variables pcAfter, nextLoadReg and nextLoadValue, or by
-- `return`.
pub data Outcome : Type 0 where
  continues : Machine → ℕ → ℕ → ℕ → Outcome
  returns : Machine → Outcome
