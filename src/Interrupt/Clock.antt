-- ===== src/Interrupt/Clock.antt =====
-- How Idle and OneTick of code/machine/interrupt.cc move the clock, and how OneTick ends.
use os_td_minf.Prelude.{
  ℕ, ◌+◌, ◌-◌, ◌≢◌, ap₂, ◌≤◌, ◌<◌, max, ◌≡◌, refl, ap, inl, inr, Bool, true, false, Option, some,
  arith, Bool-cases, ◌>>=◌,
}
use os_td_minf.Interrupt.Defs.{
  PendingInterrupt, Statistics, Simulation, MachineStatus, idle_mode, system_mode, user_mode,
  advance_clock, tick, yield_if_asked, idle,
}
use os_td_minf.Interrupt.Served.{now}

-- Every tick is counted as idle, system or user time.
abbrev pub Accounted : Statistics → Type 0
Accounted t = t.total_ticks ≡ t.idle_ticks + t.system_ticks + t.user_ticks

pub tick-Accounted : (st : MachineStatus) (t : Statistics) → Accounted t → Accounted (tick st t)
unfolding tick
tick-Accounted idle_mode t h = ground arith
tick-Accounted system_mode t h = ground arith
tick-Accounted user_mode t h = ground arith

-- The clock after waiting till `when`, unless that is past: the time is counted as idle.
abbrev pub waited : Statistics → ℕ → Statistics
waited t when = record t {
  idle_ticks = t.idle_ticks + (when - t.total_ticks);
  total_ticks = max t.total_ticks when;
}

pub waited-Accounted : (t : Statistics) (when : ℕ) → Accounted t → Accounted (waited t when)
waited-Accounted t when a = ground arith

abbrev with_clock : Statistics → ℕ → ℕ → Statistics
with_clock t total idle = record t { idle_ticks = idle; total_ticks = total }

pub waited_later :
    {W : Type 0} (s : Simulation W) (when : ℕ)
    → now s < when
    → (advance_clock when s).stats ≡ waited s.stats when
waited_later s when later =
    ap (λ total. with_clock s.stats total (s.stats.idle_ticks + (when - now s))) (ground arith)

pub waited_early : (t : Statistics) (when : ℕ) → when ≤ t.total_ticks → t ≡ waited t when
waited_early t when early = ap₂ (with_clock t) (ground arith) (omega arith)

-- How OneTick moves the clock: by 10 ticks of system time in system mode, by 1 of user time otherwise.
pub data Moves (st : MachineStatus) (t t' : Statistics) : Type 0 where
  system_time :
      st ≡ system_mode
      → t' ≡ record t { total_ticks = t.total_ticks + 10; system_ticks = t.system_ticks + 10 }
      → Moves st t t'
  user_time :
      st ≢ system_mode
      → t' ≡ record t { total_ticks = t.total_ticks + 1; user_ticks = t.user_ticks + 1 }
      → Moves st t t'

abbrev is_system : MachineStatus → Bool
is_system system_mode = true
is_system user_mode = false
is_system idle_mode = false

pub tick-Moves : (st : MachineStatus) (t : Statistics) → Moves st t (tick st t)
unfolding tick
tick-Moves system_mode t = system_time refl refl
tick-Moves user_mode t = user_time (λ e. ground (arith, ap is_system e)) refl
tick-Moves idle_mode t = user_time (λ e. ground (arith, ap is_system e)) refl

-- The end of OneTick: Yield, in system mode, when a handler has asked for it.
pub data Ends {W : Type 0} (yield : Simulation W → Option (Simulation W)) (old : MachineStatus)
    (s : Simulation W) (result : Option (Simulation W)) : Type 0 where
  goes_on : s.interrupt.yield_on_return ≡ false → result ≡ some s → Ends yield old s result
  gives_way :
      s.interrupt.yield_on_return ≡ true
      → result ≡ (
          yield (record s {
            interrupt = record s.interrupt { yield_on_return = false; status = system_mode };
          })
          >>= λ k. some (record k { interrupt = record k.interrupt { status = old } }))
      → Ends yield old s result

pub yield_if_asked-Ends :
    {W : Type 0} (call : PendingInterrupt → Simulation W → Option (Simulation W))
    (yield : Simulation W → Option (Simulation W)) (old : MachineStatus) (s : Simulation W)
    → Ends yield old s (yield_if_asked call yield old s)
yield_if_asked-Ends call yield old s = elim (Bool-cases s.interrupt.yield_on_return) [
  | inl asked ↦ simp asked (gives_way asked refl)
  | inr not_asked ↦ simp not_asked (goes_on not_asked refl)
]
