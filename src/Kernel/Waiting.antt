-- ===== src/Kernel/Waiting.antt =====
-- P and V of code/threads/synch.cc keep the system valid.
use os_td_minf.Prelude.{
  ℕ, ◌+◌, ◌-◌, ◌≤◌, ◌≡◌, refl, sym, ap, ◌∙◌, ◌≢◌, inl, inr, Bool, true, false, ◌&&◌, Option, some,
  [], ◌∷◌, ◌++◌, arith, ◌==◌, if◌then◌else◌, ==_iff, ==_refl, ==_ne, Bool-cases,
}
use os_td_minf.Machine.{update}
use os_td_minf.Interrupt.Defs.{IntStatus, int_off, is_off}
use os_td_minf.Kernel.Defs.{
  blocked, Point, outside, fresh, in_yield, in_p, finished, Semaphore, System, sleep, p_loop, p,
  set_level,
}
use os_td_minf.Kernel.Threads.{Fresh, AllIn-append, NoDup-append}
use os_td_minf.Kernel.Queues.{
  Queues, is_finished, waits_on, update_self, change-Queues, point-Queues, running-Fresh,
}
use os_td_minf.Kernel.Moves.{share-Queues, semaphore-Queues}
use os_td_minf.Kernel.Valid.{QueuesOf, own_share, Live, Valid, works, seek-Switches}

-- The current thread may take a unit of semaphore i: it starts P, or was woken in P of it.
abbrev pub MayTake : ℕ → System → Type 0
MayTake i s = ((j : ℕ) → i ≢ j → own_share s j ≡ 0) × (own_share s i ≤ 1)

pub at_outside-MayTake : (i : ℕ) (s : System) → s.point s.current ≡ outside → MayTake i s
at_outside-MayTake i s h = (λ j ne. ap (waits_on j) h, omega (arith, ap (waits_on i) h))

pub in_p-MayTake :
    (i : ℕ) (old : IntStatus) (s : System) → s.point s.current ≡ in_p i old → MayTake i s
in_p-MayTake i old s h =
    (λ j ne. ap (waits_on j) h ∙ simp (==_ne j i (λ e. ne (sym e))) refl, omega (arith, own))
  where
    own : own_share s i ≡ 1
    own = ap (waits_on i) h ∙ simp (==_refl i) refl

abbrev pub is_outside : Point → Bool
is_outside outside = true
is_outside fresh = false
is_outside (in_yield old) = false
is_outside (in_p i old) = false
is_outside finished = false

-- P of semaphore i by the current thread of s: the values afterwards, with the unit that it took.
abbrev pub Counts : ℕ → System → System → Type 0
Counts i s s' =
    (j : ℕ)
    → (s'.semaphores j).value + (if i == j && is_outside (s'.point s.current) then 1 else 0)
      ≡ (s.semaphores j).value

abbrev pub Takes : ℕ → System → Option System → Type 0
Takes i s r = (s' : System) × (r ≡ some s') × Valid s' × Counts i s s'

-- P at its test, with interrupts off.
module _ (i : ℕ) (old : IntStatus) (s : System) (live : Live s) (q : QueuesOf (own_share s) s)
    (may : MayTake i s) where
  out : Fresh s.current s.ready_list × ((j : ℕ) → Fresh s.current (s.semaphores j).queue)
  out = running-Fresh q s.current live.is_running

  abbrev waiting : Semaphore
  waiting = record (s.semaphores i) { queue = (s.semaphores i).queue ++ (s.current ∷ []) }

  abbrev taken : Semaphore
  taken = record (s.semaphores i) { value = (s.semaphores i).value - 1 }

  enqueue-Queues :
      (s.semaphores i).value ≡ 0
      → Queues
          (λ j. 0)
          s.ready_list
          (update s.status s.current blocked)
          (update s.point s.current (in_p i old))
          (update s.semaphores i waiting)
  enqueue-Queues none_left =
      let q' = change-Queues q s.current blocked (in_p i old) out.0 out.1 in
      semaphore-Queues (λ j. 0) i waiting q' (λ j ne. omega (arith, may.0 j ne))
        (AllIn-append _ (s.semaphores i).queue s.current (q'.all_wait i)
          (update_self s.status s.current blocked, old, update_self s.point s.current (in_p i old)))
        (NoDup-append (s.semaphores i).queue s.current (q'.wait_once i) (out.1 i))
        (inr (omega (arith, none_left)))

  take-Queues :
      (s.semaphores i).value ≢ 0
      → Queues
          (λ j. 0)
          s.ready_list
          s.status
          (update s.point s.current outside)
          (update s.semaphores i taken)
  take-Queues some_left =
      let q' = point-Queues q s.current outside out.0 out.1 in
      semaphore-Queues (λ j. 0) i taken q' (λ j ne. omega (arith, may.0 j ne)) (q'.all_wait i)
        (q'.wait_once i)
        (elim (q'.none_lost i) [
          | inl none_wait ↦ inl none_wait
          | inr few ↦ inr (omega (arith, few, may.1))
        ])

  asleep_Counts :
      (s' : System)
      → s'.semaphores ≡ update s.semaphores i waiting
      → s'.point ≡ update s.point s.current (in_p i old)
      → Counts i s s'
  asleep_Counts s' same_sems same_point j =
      let here : is_outside (s'.point s.current) ≡ false =
        ap (λ f. is_outside (f s.current)) same_point
        ∙ ap is_outside (update_self s.point s.current (in_p i old)) in
      let there : (s'.semaphores j).value ≡ (s.semaphores j).value =
        ap (λ f. (f j).value) same_sems ∙ elim (Bool-cases (i == j)) [
          | inl same ↦ simp same (ap (λ k. (s.semaphores k).value) ((==_iff i j).0 same))
          | inr other ↦ simp other refl
        ] in
      elim (Bool-cases (i == j)) [
        | inl same ↦ simp (same, here) (omega (arith, there))
        | inr other ↦ simp other (omega (arith, there))
      ]

  taken_Counts :
      (s.semaphores i).value ≢ 0
      → Counts i s (record s {
        point = update s.point s.current outside;
        semaphores = update s.semaphores i taken;
      })
  taken_Counts some_left j = elim (Bool-cases (i == j)) [
    | inl same ↦
        let e = ap (λ k. (s.semaphores k).value) ((==_iff i j).0 same) in
        simp (same, update_self s.point s.current outside) (omega (arith, some_left, e))
    | inr other ↦ simp other (omega arith)
  ]

  pub p_loop-Takes : s.level ≡ int_off → Takes i s (p_loop i old s)
  unfolding p_loop sleep
  p_loop-Takes off = elim (Bool-cases ((s.semaphores i).value == 0)) [
    | inl none_left ↦
        let asleep : System = record s {
          status = update s.status s.current blocked;
          point = update s.point s.current (in_p i old);
          semaphores = update s.semaphores i waiting;
        } in
        let (s', done, valid, same_sems, same_point) =
          seek-Switches asleep off (inl live.nobody_doomed)
            (enqueue-Queues ((==_iff (s.semaphores i).value 0).0 none_left)) in
        (s', simp (none_left, ap is_off off) done, valid, asleep_Counts s' same_sems same_point)
    | inr some_left ↦
        let s' : System = record s {
          level = old;
          point = update s.point s.current outside;
          semaphores = update s.semaphores i taken;
        } in
        let at_outside = update_self s.point s.current outside in
        let live' : Live s' = record {
          awake = live.awake;
          is_running = live.is_running;
          not_finished = ap is_finished at_outside;
          nobody_doomed = live.nobody_doomed;
          masked = inl at_outside;
        } in
        let ne : (s.semaphores i).value ≢ 0 =
          λ e. ground (arith, some_left, ==_iff (s.semaphores i).value 0) in
        (
          s',
          simp some_left refl,
          works live' (share-Queues (own_share s') (take-Queues ne) (λ j. omega arith)),
          taken_Counts ne,
        )
  ]

pub p-Takes :
    (i : ℕ) (s : System)
    → Live s
    → QueuesOf (own_share s) s
    → s.point s.current ≡ outside
    → Takes i s (p i s)
unfolding p
p-Takes i s live q at_outside =
    let live' : Live (set_level int_off s) = record {
      awake = live.awake;
      is_running = live.is_running;
      not_finished = live.not_finished;
      nobody_doomed = live.nobody_doomed;
      masked = inr refl;
    } in
    p_loop-Takes i s.level (set_level int_off s) live' q (at_outside-MayTake i s at_outside) refl
