-- ===== src/Cpu/Progress.antt =====
-- Machine::OneInstruction of code/machine/mipssim.cc on a sound machine.
use os_td_minf.Prelude.{ℕ, ◌≡◌, refl, ap, ◌∙◌, true, Option, none, some, ◌>>=◌, arith}
use os_td_minf.Machine.Reg
use os_td_minf.Machine.{Machine, ExceptionType, reg, set_reg, read_mem}
use os_td_minf.Machine.Bounds.{whole}
use os_td_minf.Cpu.Outcome.{continues, returns}
use os_td_minf.Cpu.Opcodes.{op_div}
use os_td_minf.Cpu.Decode.{Instruction, decode}
use os_td_minf.Cpu.Fields.{decode-IsInstruction}
use os_td_minf.Cpu.Alu.{rs_of, rt_of}
use os_td_minf.Cpu.Branch.{after_next}
use os_td_minf.Cpu.Execute.{division_traps, advance, execute, run_raw, one_instruction}
use os_td_minf.Cpu.Sound.{
  IsSound, IsReady, Stopped, Stopped-same, after_handler, delayed_load-Delayed, set_reg-IsSound,
}
use os_td_minf.Cpu.Access.{Reads, interrupted, got, read_mem-Reads}
use os_td_minf.Cpu.Outcomes.{Finished, Fares, finished, trapped, divided}
use os_td_minf.Cpu.Cases.{execute-Fares}

-- An instruction that ended by itself: the program counters have moved on.
pub record Advanced (m m' : Machine) : Type 0 where
  pub ready : IsReady m'
  pub pc_moved : reg m' Reg.pc ≡ reg m Reg.next_pc
  pub prev_pc_moved : reg m' Reg.prev_pc ≡ reg m Reg.pc

pub data Stepped (handler : ExceptionType → Machine → Option Machine) (m : Machine)
    (r : Option Machine) : Type 0 where
  advanced : (m' : Machine) → r ≡ some m' → Advanced m m' → Stepped handler m r
  handled : (e : ExceptionType) (k : Machine) → Stopped m k → r ≡ handler e k → Stepped handler m r
  host_trap :
      (raw : ℕ) (m' : Machine) (i : Instruction)
      → read_mem handler m (reg m Reg.pc) 4 ≡ some (some raw, m')
      → decode raw ≡ some i
      → i.op_code ≡ op_div
      → division_traps (rs_of m' i) (rt_of m' i) ≡ true
      → r ≡ none
      → Stepped handler m r

as_left : (o : Option Machine) → (o >>= λ m. advance (returns m)) ≡ o
unfolding advance
as_left none = refl
as_left (some m) = refl

fetch_failed :
    (handler : ExceptionType → Machine → Option Machine) (o : Option Machine)
    → ((o >>= λ m. some (none, m)) >>= run_raw handler) ≡ o
fetch_failed handler none = refl
fetch_failed handler (some m) = refl

advance-Advanced :
    (m m₁ : Machine) (pc_after r v : ℕ)
    → Finished m m₁ pc_after r v
    → (m' : Machine) × (advance (continues m₁ pc_after r v) ≡ some m') × Advanced m m'
unfolding advance
advance-Advanced m m₁ pc_after r v done =
    let (m₂, at, d) = delayed_load-Delayed m₁ r v done.load_bound done.value_bound done.sound in
    let ready = d.ready in
    let sound₂ = ready.sound in
    let m₃ = set_reg m₂ Reg.prev_pc (reg m₂ Reg.pc) in
    let m₄ = set_reg m₃ Reg.pc (reg m₃ Reg.next_pc) in
    let sound₃ : IsSound m₃ =
      set_reg-IsSound m₂ Reg.prev_pc (reg m₂ Reg.pc) (omega arith) (sound₂.words Reg.pc) sound₂ in
    let sound₄ : IsSound m₄ =
      set_reg-IsSound m₃ Reg.pc (reg m₃ Reg.next_pc) (omega arith) (sound₃.words Reg.next_pc)
        sound₃ in
    (
      set_reg m₄ Reg.next_pc pc_after,
      rw at refl,
      record {
        ready = record {
          sound = set_reg-IsSound m₄ Reg.next_pc pc_after (omega arith) done.pc_after_bound sound₄;
          zero_reg = ready.zero_reg;
        };
        pc_moved = d.next_pc_kept ∙ done.next_pc_kept;
        prev_pc_moved = d.pc_kept ∙ done.pc_kept;
      },
    )

-- Machine::OneInstruction on a machine that is ready, with any exception handler, never reads or
-- writes outside an array and fails no ASSERT of its own. It either moves the program counters on and ends
-- with such a machine; or it calls the handler once, on such a machine that still has the program
-- counters of the instruction, and ends exactly as the handler does; the only other way is the division
-- of the least integer by -1, which C leaves undefined.
pub one_instruction-Stepped :
    (handler : ExceptionType → Machine → Option Machine) (m : Machine)
    → IsReady m
    → Stepped handler m (one_instruction handler m)
unfolding one_instruction
one_instruction-Stepped handler m ready =
    let sound = ready.sound in
    fetched (read_mem-Reads handler m (reg m Reg.pc) 4 (sound.words Reg.pc) (whole refl) sound)
  where
    executed :
        (raw : ℕ) (m₁ : Machine) (i : Instruction)
        → read_mem handler m (reg m Reg.pc) 4 ≡ some (some raw, m₁)
        → decode raw ≡ some i
        → m₁.registers ≡ m.registers
        → Fares handler m₁ i i.op_code (execute handler i.op_code m₁ i (after_next m₁))
        → Stepped handler m (one_instruction handler m)
    executed raw m₁ i q d same (finished m₂ p r v e done) =
        let (m', at, a) = advance-Advanced m₁ m₂ p r v done in
        advanced m' (simp (q, d, e) at) (record {
          ready = a.ready;
          pc_moved = a.pc_moved ∙ ap (λ f. f Reg.next_pc) same;
          prev_pc_moved = a.prev_pc_moved ∙ ap (λ f. f Reg.pc) same;
        })
    executed raw m₁ i q d same (trapped e k trap done) =
        handled e k (Stopped-same m m₁ k same trap)
          (simp (q, d, done) (after_handler (handler e k) returns advance ∙ as_left (handler e k)))
    executed raw m₁ i q d same (divided o t e) = host_trap raw m₁ i q d o t (simp (q, d, e) refl)

    fetched :
        Reads handler m (read_mem handler m (reg m Reg.pc) 4)
        → Stepped handler m (one_instruction handler m)
    fetched (interrupted e k trap q) = handled e k trap (rw q (fetch_failed handler (handler e k)))
    fetched (got raw m₁ q small sound₁ same) =
        let (i, d, fields) = decode-IsInstruction raw in
        executed raw m₁ i q d same (
          execute-Fares handler i.op_code m₁ i (after_next m₁) sound₁ fields (omega arith)
            fields.handled)
