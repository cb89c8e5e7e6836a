-- ===== src/Interrupt/Ticks.antt =====
-- Schedule, OneTick, SetLevel and Idle of code/machine/interrupt.cc.
use os_td_minf.Prelude.{
  ℕ, zero, suc, ◌+◌, ◌<◌, ◌≡◌, refl, sym, subst, ◌⊎◌, inl, inr, Bool, true, false, ◌&&◌, Option,
  none, some, List, [], ◌∷◌, arith, lt→ltb, length,
}
use os_td_minf.Machine.{Machine}
use os_td_minf.Cpu.Sound.{IsReady}
use os_td_minf.Interrupt.Defs.{
  PendingInterrupt, Statistics, Simulation, IntType, int_off, int_on, idle_mode, system_mode,
  is_idle, is_timer, is_nil, insert, set_pending, change_level, schedule, tick, one_tick,
}
use os_td_minf.Interrupt.Pending.{Sorted, insert-Sorted, due-insert, due-le_length}
use os_td_minf.Interrupt.Due.{IsMasked, Returns, Handlers, due_loop-Settled}
use os_td_minf.Interrupt.Served.{now, pending_of, due_now, Handled, Served}
use os_td_minf.Interrupt.Clock.{
  Accounted, tick-Accounted, waited, Moves, tick-Moves, Ends, yield_if_asked-Ends,
}

-- Schedule with a positive delay is something that a handler may do: the new interrupt is not due yet.
-- With no delay it fails its ASSERT.
pub schedule-Returns :
    {W : Type 0} (handler arg from_now : ℕ) (type : IntType) (s : Simulation W)
    → IsMasked s
    → ((from_now ≡ 0) × (schedule handler arg from_now type s ≡ none))
      ⊎ ((s' : Simulation W) × (schedule handler arg from_now type s ≡ some s') × Returns s s')
unfolding schedule
schedule-Returns handler arg zero type s valid = inl (refl, refl)
schedule-Returns handler arg (suc k) type s valid =
    let p : PendingInterrupt = record {
      handler = handler;
      arg = arg;
      when = now s + suc k;
      type = type;
    } in
    inr (
      set_pending (insert p (pending_of s)) s,
      simp (lt→ltb 0 (suc k) (omega arith)) refl,
      record {
        still = record {
          masked = valid.masked;
          sorted = insert-Sorted p (pending_of s) valid.sorted;
          machine_ready = valid.machine_ready;
        };
        same_stats = refl;
        no_more = ground (arith, due-insert (now s) p (pending_of s));
      },
    )

module _ {W : Type 0} (call : PendingInterrupt → Simulation W → Option (Simulation W))
    (yield : Simulation W → Option (Simulation W)) (handlers : Handlers call) where
  abbrev pub awake : Simulation W → Simulation W
  awake s = record s {
    interrupt = record s.interrupt { yield_on_return = false; status = system_mode };
  }

  pub data Idles (s : Simulation W) (r : Option (Bool × Simulation W))
      : List PendingInterrupt → Type 0 where
    waits :
        (p : PendingInterrupt) (ps : List PendingInterrupt) (s₁ s₂ : Simulation W)
        → (is_timer p.type && is_nil ps) ≡ false
        → Handled call idle_mode p
            (record s {
              interrupt = record s.interrupt { pending = ps; status = idle_mode };
              stats = waited s.stats p.when;
            })
            s₁
        → Served call s₁ s₂
        → r ≡ some (true, awake s₂)
        → IsMasked (awake s₂)
        → s₂.stats ≡ waited s.stats p.when
        → (Accounted s.stats → Accounted s₂.stats)
        → Idles s r (p ∷ ps)
    halts_empty : (s' : Simulation W) → r ≡ some (false, s') → Idles s r []
    halts_timer :
        (p : PendingInterrupt) (ps : List PendingInterrupt) (s' : Simulation W)
        → r ≡ some (false, s')
        → (is_timer p.type && is_nil ps) ≡ true
        → Idles s r (p ∷ ps)

  pub record Ticked (s s' : Simulation W) : Type 0 where
    pub moved : Moves s.interrupt.status s.stats s'.stats
    pub masked_end : Simulation W
    pub served :
        Served call
          (record s { interrupt = record s.interrupt { level = int_off }; stats = s'.stats })
          masked_end
    pub enabled :
        s' ≡ record masked_end { interrupt = record masked_end.interrupt { level = int_on } }
    pub sorted : Sorted (pending_of s')
    pub accounted : Accounted s.stats → Accounted s'.stats
    pub none_due : is_idle s.interrupt.status ≡ false → due_now s' ≡ 0

  -- OneTick with a bound on its loop above the number of pending interrupts, and handlers that, called
  -- with inHandler set, return with no more interrupts due than there were: the clock moves on by 10 ticks
  -- of system time in system mode and by 1 of user time otherwise; with interrupts off, the loop calls the
  -- handlers of the interrupts that are due, one after another, and ends; outside idle mode none is due
  -- then. Interrupts are on again, and Yield is called, in system mode, when a handler asked for it.
  pub one_tick-Ticked :
      (k : ℕ) (s : Simulation W)
      → Sorted (pending_of s)
      → ((m : Machine) → s.machine ≡ some m → IsReady m)
      → length (pending_of s) < k
      → (s' : Simulation W) × Ends yield s.interrupt.status s' (one_tick call yield k s)
        × Ticked s s'
  unfolding one_tick change_level
  one_tick-Ticked k s sorted ready few =
      let start = change_level int_off (record s { stats = tick s.interrupt.status s.stats }) in
      let (s₁, done, settled) =
        due_loop-Settled call handlers k start
          (record { masked = refl; sorted = sorted; machine_ready = ready })
          (omega
            (arith, due-le_length (tick s.interrupt.status s.stats).total_ticks (pending_of s))) in
      let valid = settled.valid in
      let same : tick s.interrupt.status s.stats ≡ s₁.stats = sym settled.same_stats in
      (
        change_level int_on s₁,
        rw done (yield_if_asked-Ends call yield s.interrupt.status (change_level int_on s₁)),
        record {
          moved =
              subst (Moves s.interrupt.status s.stats) same (tick-Moves s.interrupt.status s.stats);
          masked_end = s₁;
          served =
              subst
                (λ (u : Statistics).
                  Served call
                    (record s { interrupt = record s.interrupt { level = int_off }; stats = u }) s₁)
                same settled.served;
          enabled = refl;
          sorted = valid.sorted;
          accounted = λ h. subst Accounted same (tick-Accounted s.interrupt.status s.stats h);
          none_due = λ h. elim settled.none_due [ inl e ↦ absurd (ground arith) | inr e ↦ e ];
        },
      )
