-- ===== src/Interrupt/Due.antt =====
-- CheckIfDue of code/machine/interrupt.cc and the loop over it.
use os_td_minf.Prelude.{
  ℕ, zero, suc, ◌≤◌, ◌<◌, ◌≡◌, refl, ap, subst, ◌∙◌, ◌⊎◌, inl, inr, Bool, true, false, ◌&&◌, Option,
  none, some, List, [], ◌∷◌, arith, ltb, Bool-cases,
}
use os_td_minf.Machine.{Machine}
use os_td_minf.Cpu.Sound.{IsReady, delayed_load-Delayed}
use os_td_minf.Interrupt.Defs.{
  PendingInterrupt, Simulation, int_off, MachineStatus, idle_mode, system_mode, user_mode, is_idle,
  is_off, is_timer, is_nil, insert, set_pending, set_status, set_in_handler, finish_load, fire,
  check_first, check_if_due, due_loop,
}
use os_td_minf.Interrupt.Pending.{Sorted, due, insert-Sorted, due-insert, due_none}
use os_td_minf.Interrupt.Served.{
  now, pending_of, due_now, Handled, Served, nothing, too_early, timer_alone, next_served,
}

-- Interrupts are off, the pending ones are sorted, and the machine, if there is one, is in a valid
-- state.
pub record IsMasked {W : Type 0} (s : Simulation W) : Type 0 where
  pub masked : s.interrupt.level ≡ int_off
  pub sorted : Sorted s.interrupt.pending
  pub machine_ready : (m : Machine) → s.machine ≡ some m → IsReady m

-- What a handler is asked, when it is called with inHandler set: it returns with interrupts off, does not move the clock, and leaves no
-- more interrupts due than there were.
pub record Returns {W : Type 0} (s s' : Simulation W) : Type 0 where
  pub still : IsMasked s'
  pub same_stats : s'.stats ≡ s.stats
  pub no_more : due_now s' ≤ due_now s

abbrev pub Handlers :
    {W : Type 0} → (PendingInterrupt → Simulation W → Option (Simulation W)) → Type 0
Handlers {W} call =
    (p : PendingInterrupt) (s : Simulation W)
    → IsMasked s
    → s.interrupt.in_handler ≡ true
    → (s' : Simulation W) × (call p s ≡ some s') × Returns s s'

some_injective : {a b : Machine} → some a ≡ some b → a ≡ b
some_injective e = ground arith

finish_load-IsReady :
    (st : MachineStatus) (o : Option Machine)
    → ((m : Machine) → o ≡ some m → IsReady m)
    → (o' : Option Machine) × (finish_load st o ≡ some o')
      × ((m : Machine) → o' ≡ some m → IsReady m)
finish_load-IsReady user_mode none ready = (none, refl, ready)
finish_load-IsReady user_mode (some m) ready =
    let (m', at, d) = delayed_load-Delayed m 0 0 (omega arith) (omega arith) (ready m refl).sound in
    (some m', rw at refl, λ k e. subst IsReady (some_injective e) d.ready)
finish_load-IsReady system_mode o ready = (o, refl, ready)
finish_load-IsReady idle_mode o ready = (o, refl, ready)

module _ {W : Type 0} (call : PendingInterrupt → Simulation W → Option (Simulation W))
    (handlers : Handlers call) where
  -- What CheckIfDue comes to: nothing was due, or the earliest interrupt was removed and its handler
  -- run, with the machine status restored.
  pub data Checks (s : Simulation W) (r : Option (Bool × Simulation W)) : Type 0 where
    quiet :
        (s' : Simulation W)
        → r ≡ some (false, s')
        → IsMasked s'
        → s'.stats ≡ s.stats
        → s'.interrupt.status ≡ s.interrupt.status
        → (is_idle s.interrupt.status ≡ true) ⊎ (due_now s' ≡ 0)
        → Served call s s'
        → Checks s r
    fired :
        (s' : Simulation W)
        → r ≡ some (true, s')
        → ((s₂ : Simulation W) → Served call s' s₂ → Served call s s₂)
        → IsMasked s'
        → s'.stats ≡ s.stats
        → s'.interrupt.status ≡ s.interrupt.status
        → due_now s' < due_now s
        → Checks s r

  -- The handler is run on `s` without the interrupt `p`.
  pub fire_lem :
      (old : MachineStatus) (p : PendingInterrupt) (s : Simulation W)
      → IsMasked s
      → (s' : Simulation W) × (fire call old p s ≡ some (true, s'))
        × IsMasked s'
        × (s'.stats ≡ s.stats)
        × (s'.interrupt.status ≡ old)
        × (due_now s' ≤ due_now s)
        × Handled call old p s s'
  unfolding fire
  fire_lem old p s valid =
      let (o, at, ready) = finish_load-IsReady s.interrupt.status s.machine valid.machine_ready in
      let start = set_status system_mode (set_in_handler true (record s { machine = o })) in
      let (s', called, ret) =
        handlers p start
          (record { masked = valid.masked; sorted = valid.sorted; machine_ready = ready }) refl in
      let still = ret.still in
      (
        set_in_handler false (set_status old s'),
        rw at (rw called refl),
        record {
          masked = still.masked;
          sorted = still.sorted;
          machine_ready = still.machine_ready;
        },
        ret.same_stats,
        refl,
        ret.no_more,
        record { loaded = o; is_loaded = at; left = s'; called = called; is_left = refl },
      )

  module _ (s : Simulation W) (valid : IsMasked s) (p : PendingInterrupt)
      (ps : List PendingInterrupt) (is : pending_of s ≡ p ∷ ps) where
    rest_IsMasked : IsMasked (set_pending ps s)
    rest_IsMasked = record {
      masked = valid.masked;
      sorted = (subst Sorted is valid.sorted).1;
      machine_ready = valid.machine_ready;
    }

    back_IsMasked : IsMasked (set_pending (insert p ps) s)
    back_IsMasked = record {
      masked = valid.masked;
      sorted = insert-Sorted p ps (subst Sorted is valid.sorted).1;
      machine_ready = valid.machine_ready;
    }

    -- The first interrupt is not due.
    not_yet : now s < p.when → due_now (set_pending (insert p ps) s) ≡ 0
    not_yet later =
        let (all, sorted) = subst Sorted is valid.sorted in
        due-insert (now s) p ps ∙ ground (arith, due_none (now s) p.when ps later all)

    fires :
        p.when ≤ now s
        → (is_idle s.interrupt.status && is_timer p.type && is_nil ps) ≡ false
        → Checks s (fire call s.interrupt.status p (set_pending ps s))
    fires early more =
        let (s', q, still, same, status, fewer, handled) =
          fire_lem s.interrupt.status p (set_pending ps s) rest_IsMasked in
        let counted : due_now s ≡ suc (due (now s) ps) = ap (due (now s)) is ∙ ground arith in
        fired s' q (λ s₂. next_served p ps s s' s₂ is early more handled) still same status
          (omega (arith, fewer, counted))

  from_list :
      (s : Simulation W)
      → IsMasked s
      → (qs : List PendingInterrupt) → pending_of s ≡ qs
      → Checks s (check_first call false s qs)
  from_list s valid [] is =
      quiet s refl valid refl refl (inr (ap (due (now s)) is)) (nothing s s is refl)
  from_list s valid (p ∷ ps) is = elim (Bool-cases (ltb (now s) p.when)) [
    | inl later ↦ simp later (
        quiet (set_pending (insert p ps) s) refl (back_IsMasked s valid p ps is) refl refl
          (inr (not_yet s valid p ps is (ground arith)))
          (too_early p ps s _ is (ground arith) refl))
    | inr early ↦ elim (Bool-cases (is_idle s.interrupt.status && is_timer p.type && is_nil ps)) [
      | inl done ↦
          simp (early, done)
            (quiet (set_pending (insert p ps) s) refl (back_IsMasked s valid p ps is) refl refl
              (inl (ground arith)) (timer_alone p ps s _ is (ground arith) done refl))
      | inr more ↦ simp (early, more) (fires s valid p ps is (ground arith) more)
    ]
  ]

  -- CheckIfDue(FALSE) with interrupts off: it runs the handler of an interrupt that is due, or there is
  -- none.
  pub check_if_due-Checks : (s : Simulation W) → IsMasked s → Checks s (check_if_due call false s)
  unfolding check_if_due
  check_if_due-Checks s valid =
      simp (ap is_off valid.masked) (from_list s valid (pending_of s) refl)

  pub record Settled (s s' : Simulation W) : Type 0 where
    pub valid : IsMasked s'
    pub same_stats : s'.stats ≡ s.stats
    pub same_status : s'.interrupt.status ≡ s.interrupt.status
    pub none_due : (is_idle s.interrupt.status ≡ true) ⊎ (due_now s' ≡ 0)
    pub served : Served call s s'

  round :
      (k : ℕ) (s : Simulation W)
      → ((s₁ : Simulation W)
          → IsMasked s₁
          → due_now s₁ < k
          → (s' : Simulation W) × (due_loop call k s₁ ≡ some s') × Settled s₁ s')
      → due_now s < suc k
      → Checks s (check_if_due call false s)
      → (s' : Simulation W) × (due_loop call (suc k) s ≡ some s') × Settled s s'
  unfolding due_loop
  round k s rest few (quiet s' q valid same status none_due served) = (
    s',
    rw q refl,
    record {
      valid = valid;
      same_stats = same;
      same_status = status;
      none_due = none_due;
      served = served;
    },
  )
  round k s rest few (fired s₁ q first valid same status fewer) =
      let (s', done, settled) = rest s₁ valid (omega arith) in
      (
        s',
        rw q done,
        record {
          valid = settled.valid;
          same_stats = settled.same_stats ∙ same;
          same_status = settled.same_status ∙ status;
          none_due = subst (λ st. (is_idle st ≡ true) ⊎ (due_now s' ≡ 0)) status settled.none_due;
          served = first s' settled.served;
        },
      )

  -- The loop `while (CheckIfDue(FALSE)) ;` ends, after at most as many rounds as interrupts are due.
  pub due_loop-Settled :
      (k : ℕ) (s : Simulation W)
      → IsMasked s
      → due_now s < k
      → (s' : Simulation W) × (due_loop call k s ≡ some s') × Settled s s'
  due_loop-Settled zero s valid few = absurd (omega arith)
  due_loop-Settled (suc k) s valid few =
      round k s (due_loop-Settled k) few (check_if_due-Checks s valid)
