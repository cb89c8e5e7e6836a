-- ===== src/Cpu/Outcomes.antt =====
-- What a case of the switch of Machine::OneInstruction (code/machine/mipssim.cc) may come to, and
-- that the cases without memory come to that.
use os_td_minf.Prelude.{ℕ, ◌^◌, ◌<◌, ◌≡◌, refl, ◌∙◌, true, Option, none, some, ◌>>=◌, arith}
use os_td_minf.Machine.Reg
use os_td_minf.Machine.{Machine, ExceptionType, reg, set_reg}
use os_td_minf.Cpu.Outcome.{Outcome, continues, returns}
use os_td_minf.Cpu.Opcodes.{Op, op_div}
use os_td_minf.Cpu.Decode.{Instruction}
use os_td_minf.Cpu.Alu.{rs_of, rt_of}
use os_td_minf.Cpu.Execute.{division_traps}
use os_td_minf.Cpu.Sound.{IsSound, Stopped, set_reg-IsSound, set_reg_ne}

-- A case that ends by `break` leaves a sound machine with the program counters of `m`.
pub record Finished (m m' : Machine) (pc_after r v : ℕ) : Type 0 where
  pub sound : IsSound m'
  pub pc_kept : reg m' Reg.pc ≡ reg m Reg.pc
  pub next_pc_kept : reg m' Reg.next_pc ≡ reg m Reg.next_pc
  pub pc_after_bound : pc_after < 2 ^ 32
  pub load_bound : r < 32
  pub value_bound : v < 2 ^ 32

-- A case ends by `break`, or with what the handler of an exception left, if that returns, or DIV traps in
-- the host.
pub data Fares (handler : ExceptionType → Machine → Option Machine) (m : Machine) (i : Instruction)
    (o : Op) (result : Option Outcome) : Type 0 where
  finished :
      (m' : Machine) (pc_after r v : ℕ)
      → result ≡ some (continues m' pc_after r v)
      → Finished m m' pc_after r v
      → Fares handler m i o result
  trapped :
      (e : ExceptionType) (k : Machine)
      → Stopped m k
      → result ≡ (handler e k >>= λ m'. some (returns m'))
      → Fares handler m i o result
  divided :
      o ≡ op_div
      → division_traps (rs_of m i) (rt_of m i) ≡ true
      → result ≡ none
      → Fares handler m i o result

module _ (m : Machine) (sound : IsSound m) (pc_after : ℕ) (pc_bound : pc_after < 2 ^ 32) where
  pub unchanged : Finished m m pc_after 0 0
  unchanged = record {
    sound = sound;
    pc_kept = refl;
    next_pc_kept = refl;
    pc_after_bound = pc_bound;
    load_bound = omega arith;
    value_bound = omega arith;
  }

  -- One register below PC is written.
  pub written : (num v : ℕ) → num < Reg.pc → v < 2 ^ 32 → Finished m (set_reg m num v) pc_after 0 0
  written num v low small = record {
    sound = set_reg-IsSound m num v (λ e. omega (arith, e)) small sound;
    pc_kept = set_reg_ne m num v Reg.pc (λ e. omega (arith, e));
    next_pc_kept = set_reg_ne m num v Reg.next_pc (λ e. omega (arith, e));
    pc_after_bound = pc_bound;
    load_bound = omega arith;
    value_bound = omega arith;
  }

-- The registers HI and LO are written, in some order.
pub written_twice :
    (m : Machine)
    → IsSound m
    → (pc_after : ℕ) → pc_after < 2 ^ 32
    → (a b v w : ℕ) → a < Reg.pc
    → b < Reg.pc
    → v < 2 ^ 32
    → w < 2 ^ 32
    → Finished m (set_reg (set_reg m a v) b w) pc_after 0 0
written_twice m sound pc_after pc_bound a b v w a_low b_low v_small w_small =
    let once = written m sound pc_after pc_bound a v a_low v_small in
    let twice = written (set_reg m a v) once.sound pc_after pc_bound b w b_low w_small in
    record {
      sound = twice.sound;
      pc_kept = twice.pc_kept ∙ once.pc_kept;
      next_pc_kept = twice.next_pc_kept ∙ once.next_pc_kept;
      pc_after_bound = pc_bound;
      load_bound = omega arith;
      value_bound = omega arith;
    }
