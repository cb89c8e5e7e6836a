-- ===== src/Interrupt/Tests.antt =====
-- Runs of the code of code/machine/interrupt.cc.
use os_td_minf.Prelude.{
  ℕ, ◌≡◌, refl, Bool, true, false, Option, none, some, List, [], ◌∷◌, arith, ◌>>=◌, length,
}
use os_td_minf.Machine.{Machine}
use os_td_minf.Cpu.Sound.{IsReady}
use os_td_minf.Interrupt.Defs.{
  PendingInterrupt, Simulation, int_off, int_on, disk_int, system_mode, tick, check_if_due, fire,
  due_loop, change_level, one_tick, idle, yield_on_return, set_yield,
}
use os_td_minf.Interrupt.Due.{Handlers}
use os_td_minf.Interrupt.Served.{pending_of}
use os_td_minf.Interrupt.Clock.{Ends}
use os_td_minf.Interrupt.Ticks.{Ticked, one_tick-Ticked}

abbrev interrupt : ℕ → ℕ → PendingInterrupt
interrupt handler when = record { handler = handler; arg = 0; when = when; type = disk_int }

-- Each handler asks for a context switch. The world is the list of the handlers that were run. Two interrupts are due after the next tick.
abbrev simulation : Simulation (List ℕ)
simulation = record {
  interrupt = record {
    level = int_on;
    pending = interrupt 1 3 ∷ (interrupt 2 8 ∷ (interrupt 3 30 ∷ []));
    in_handler = false;
    yield_on_return = false;
    status = system_mode;
  };
  stats = record { total_ticks = 0; idle_ticks = 0; system_ticks = 0; user_ticks = 0 };
  machine = none;
  world = [];
}

abbrev log : PendingInterrupt → Simulation (List ℕ) → Option (Simulation (List ℕ))
log p s = do s' ← yield_on_return s; some (record s' { world = p.handler ∷ s'.world })

abbrev stay : Simulation (List ℕ) → Option (Simulation (List ℕ))
stay s = some s

log-Handlers : Handlers log
unfolding yield_on_return
log-Handlers p s valid in_handler = (
  record (set_yield true s) { world = p.handler ∷ s.world },
  simp in_handler refl,
  record {
    still = record {
      masked = valid.masked;
      sorted = valid.sorted;
      machine_ready = valid.machine_ready;
    };
    same_stats = refl;
    no_more = omega arith;
  },
)

no_machine : (m : Machine) → none ≡ some m → IsReady m
no_machine m e = absurd (ground arith)

abbrev seen : Simulation (List ℕ) → ℕ × ℕ × List ℕ
seen s = (s.stats.total_ticks, length (pending_of s), s.world)

one_tick_runs : (one_tick log stay 5 simulation >>= λ s. some (seen s)) ≡ some (10, 1, 2 ∷ (1 ∷ []))
unfolding one_tick due_loop check_if_due fire change_level tick yield_on_return
one_tick_runs = refl

one_tick-Ticked_example :
    (s' : Simulation (List ℕ)) × Ends stay system_mode s' (one_tick log stay 5 simulation)
    × Ticked log stay log-Handlers simulation s'
one_tick-Ticked_example =
    one_tick-Ticked log stay log-Handlers 5 simulation
      ((omega arith, (omega arith, tt)), ((omega arith, tt), (tt, tt))) no_machine (omega arith)

abbrev masked_simulation : Simulation (List ℕ)
masked_simulation = record simulation {
  interrupt = record simulation.interrupt { level = int_off };
}

idle_runs :
    (idle log stay 5 masked_simulation >>= λ (r : Bool × Simulation (List ℕ)). some (seen r.1))
    ≡ some (3, 2, 1 ∷ [])
unfolding idle due_loop check_if_due fire yield_on_return
idle_runs = refl
