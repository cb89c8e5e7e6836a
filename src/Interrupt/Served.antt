-- ===== src/Interrupt/Served.antt =====
-- What running the handlers of the interrupts that are due means, for code/machine/interrupt.cc.
use os_td_minf.Prelude.{ℕ, ◌≤◌, ◌<◌, ◌≡◌, true, false, ◌&&◌, Option, some, List, [], ◌∷◌}
use os_td_minf.Machine.{Machine}
use os_td_minf.Interrupt.Defs.{
  PendingInterrupt, Simulation, MachineStatus, system_mode, is_idle, is_timer, is_nil, insert,
  finish_load,
}
use os_td_minf.Interrupt.Pending.{due}

abbrev pub now : {W : Type 0} → Simulation W → ℕ
now s = s.stats.total_ticks

abbrev pub pending_of : {W : Type 0} → Simulation W → List PendingInterrupt
pending_of s = s.interrupt.pending

-- How many interrupts are due.
abbrev pub due_now : {W : Type 0} → Simulation W → ℕ
due_now s = due (now s) (pending_of s)

module _ {W : Type 0} (call : PendingInterrupt → Simulation W → Option (Simulation W)) where
  -- The handler of p is called on `s`, in system mode, with inHandler set and a pending load of a user
  -- program finished; afterwards inHandler is not set, and the machine status is `old`.
  pub record Handled (old : MachineStatus) (p : PendingInterrupt) (s s' : Simulation W)
      : Type 0 where
    pub loaded : Option Machine
    pub is_loaded : finish_load s.interrupt.status s.machine ≡ some loaded
    pub left : Simulation W
    pub called :
        call p (record s {
          interrupt = record s.interrupt { in_handler = true; status = system_mode };
          machine = loaded;
        })
        ≡ some left
    pub is_left :
        s' ≡ record left { interrupt = record left.interrupt { in_handler = false; status = old } }

  -- The handlers of the interrupts that are due run, the earliest first, each once it is removed, until
  -- none is due, or the timer alone is pending in idle mode.
  pub data Served : Simulation W → Simulation W → Type 0 where
    nothing : (s s' : Simulation W) → pending_of s ≡ [] → s' ≡ s → Served s s'
    too_early :
        (p : PendingInterrupt) (ps : List PendingInterrupt) (s s' : Simulation W)
        → pending_of s ≡ p ∷ ps
        → now s < p.when
        → s' ≡ record s { interrupt = record s.interrupt { pending = insert p ps } }
        → Served s s'
    timer_alone :
        (p : PendingInterrupt) (ps : List PendingInterrupt) (s s' : Simulation W)
        → pending_of s ≡ p ∷ ps
        → p.when ≤ now s
        → (is_idle s.interrupt.status && is_timer p.type && is_nil ps) ≡ true
        → s' ≡ record s { interrupt = record s.interrupt { pending = insert p ps } }
        → Served s s'
    next_served :
        (p : PendingInterrupt) (ps : List PendingInterrupt) (s s₁ s' : Simulation W)
        → pending_of s ≡ p ∷ ps
        → p.when ≤ now s
        → (is_idle s.interrupt.status && is_timer p.type && is_nil ps) ≡ false
        → Handled s.interrupt.status p
            (record s { interrupt = record s.interrupt { pending = ps } })
            s₁
        → Served s₁ s'
        → Served s s'
