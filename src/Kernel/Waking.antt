-- ===== src/Kernel/Waking.antt =====
-- V of code/threads/synch.cc keeps the system valid.
use os_td_minf.Prelude.{
  ℕ, ◌+◌, ◌%◌, ◌^◌, ◌≤◌, ◌≡◌, refl, sym, ap, subst, ◌∙◌, ◌≢◌, inl, inr, true, false, List, [], ◌∷◌,
  ◌++◌, arith, ◌==◌, if◌then◌else◌, ==_iff, ==_refl, Bool-cases, length,
}
use os_td_minf.Machine.{update}
use os_td_minf.Interrupt.Defs.{int_off}
use os_td_minf.Kernel.Defs.{
  ready, in_p, finished, Semaphore, System, ready_to_run, v, set_level, set_semaphore, wake, head,
  tail,
}
use os_td_minf.Kernel.Threads.{AllIn, Fresh, NoDup, total}
use os_td_minf.Kernel.Queues.{
  Queues, is_finished, waits_on, Waits, update_self, update_ne, status_ne, not_ready-Fresh,
  status-Queues, other-Fresh,
}
use os_td_minf.Kernel.Moves.{push-Queues, semaphore-Queues}
use os_td_minf.Kernel.Valid.{QueuesOf, own_share, Live, Idle, Valid, works, waits}

cons_ne : {t : ℕ} {ts : List ℕ} → t ∷ ts ≢ []
cons_ne e = ground (arith, ap length e)

false_ne_true : false ≢ true
false_ne_true e = ground arith

-- V of semaphore i with `us` for its queue.
abbrev v_with : ℕ → List ℕ → System → System
v_with i us s = set_level s.level (
    set_semaphore i (record { value = ((s.semaphores i).value + 1) % 2 ^ 32; queue = tail us })
      (wake (head us) (set_level int_off s)))

module _ (i : ℕ) (s : System) where
  abbrev woken : ℕ → System
  woken t = record s { status = update s.status t ready; ready_list = s.ready_list ++ (t ∷ []) }

  nobody-Queues : (share : ℕ → ℕ) → QueuesOf share s → QueuesOf share (v_with i [] s)
  nobody-Queues share q = semaphore-Queues share i _ q (λ j ne. omega arith) tt tt (inl refl)

  wake-Queues :
      (share : ℕ → ℕ) (t : ℕ) (ts : List ℕ)
      → (s.semaphores i).queue ≡ t ∷ ts
      → QueuesOf share s
      → QueuesOf share (v_with i (t ∷ ts) s)
  unfolding ready_to_run
  wake-Queues share t ts e q =
      push-Queues share t (status-Queues removed t ready out none_wait)
        (update_self s.status t ready, ap is_finished all.0.2) out (λ j. omega arith)
    where
      all : AllIn (Waits s.status s.point i) (t ∷ ts)
      all = subst (AllIn (Waits s.status s.point i)) e (q.all_wait i)

      once : NoDup (t ∷ ts)
      once = subst NoDup e (q.wait_once i)

      out : Fresh t s.ready_list
      out = not_ready-Fresh q t all.0.0 (λ k. omega (arith, k))

      sem : Semaphore
      sem = record { value = ((s.semaphores i).value + 1) % 2 ^ 32; queue = ts }

      own : waits_on i (s.point t) ≡ 1
      own = ap (waits_on i) all.0.2 ∙ one
        where
          one : waits_on i (in_p i all.0.1) ≡ 1
          one = simp (==_refl i) refl

      few :
          ((s.semaphores i).value + 1) % 2 ^ 32
          ≤ total (λ u. waits_on i (s.point u)) s.ready_list + (share i + waits_on i (s.point t))
      few = elim (q.none_lost i) [
        | inl empty ↦ absurd (cons_ne (sym e ∙ empty))
        | inr fewer ↦ omega (arith, fewer, own)
      ]

      removed :
          Queues
            (λ j. share j + waits_on j (s.point t))
            s.ready_list
            s.status
            s.point
            (update s.semaphores i sem)
      removed =
          semaphore-Queues (λ j. share j + waits_on j (s.point t)) i sem q (λ j ne. omega arith)
            all.1 once.1 (inr few)

      none_wait : (j : ℕ) → Fresh t (update s.semaphores i sem j).queue
      none_wait j = elim (Bool-cases (i == j)) [
        | inl same ↦ simp same once.0
        | inr other ↦
            simp other (other-Fresh q t i {j = j} all.0 (λ k. ground (arith, other, k, ==_iff i j)))
      ]

  -- The thread that V wakes neither runs nor has finished.
  wake-Live :
      (t : ℕ) (ts : List ℕ) → Waits s.status s.point i t → Live s → Live (v_with i (t ∷ ts) s)
  unfolding ready_to_run
  wake-Live t ts w live = record {
    awake = live.awake;
    is_running =
        update_ne s.status ready (status_ne s.status w.0 live.is_running (λ k. omega (arith, k)))
        ∙ live.is_running;
    not_finished = live.not_finished;
    nobody_doomed = live.nobody_doomed;
    masked = live.masked;
  }

  wake-Idle :
      (t : ℕ) (ts : List ℕ) → Waits s.status s.point i t → Idle s → Idle (v_with i (t ∷ ts) s)
  unfolding ready_to_run
  wake-Idle t ts w idle = record {
    is_idling = idle.is_idling;
    is_masked = idle.is_masked;
    doomed = elim idle.doomed [
      | inl nobody ↦ inl nobody
      | inr (d, is, is_blocked, has_finished) ↦ inr (
        d,
        is,
        update_ne s.status ready (λ k. not_done d has_finished k) ∙ is_blocked,
        has_finished,
      )
    ];
  }
    where
      not_done : (d : ℕ) → s.point d ≡ finished → t ≢ d
      not_done d has_finished k =
          false_ne_true (ap is_finished (sym w.2 ∙ ap s.point k ∙ has_finished))

  v_with-Valid : (us : List ℕ) → (s.semaphores i).queue ≡ us → Valid s → Valid (v_with i us s)
  unfolding ready_to_run
  v_with-Valid [] e (works live q) =
      works
        record {
          awake = live.awake;
          is_running = live.is_running;
          not_finished = live.not_finished;
          nobody_doomed = live.nobody_doomed;
          masked = live.masked;
        }
        (nobody-Queues (own_share s) q)
  v_with-Valid [] e (waits idle q) =
      waits record { is_idling = idle.is_idling; is_masked = idle.is_masked; doomed = idle.doomed }
        (nobody-Queues (λ j. 0) q)
  v_with-Valid (t ∷ ts) e (works live q) =
      let w = subst (AllIn (Waits s.status s.point i)) e (q.all_wait i) in
      works (wake-Live t ts w.0 live) (wake-Queues (own_share s) t ts e q)
  v_with-Valid (t ∷ ts) e (waits idle q) =
      let w = subst (AllIn (Waits s.status s.point i)) e (q.all_wait i) in
      waits (wake-Idle t ts w.0 idle) (wake-Queues (λ j. 0) t ts e q)

  pub v-Valid : Valid s → Valid (v i s)
  unfolding v
  v-Valid valid = v_with-Valid (s.semaphores i).queue refl valid

  v_with_value :
      (us : List ℕ) (j : ℕ)
      → ((v_with i us s).semaphores j).value
        ≡ (if i == j then ((s.semaphores j).value + 1) % 2 ^ 32 else (s.semaphores j).value)
  unfolding ready_to_run
  v_with_value us j = elim (Bool-cases (i == j)) [
    | inl same ↦ simp same (ap (λ k. ((s.semaphores k).value + 1) % 2 ^ 32) ((==_iff i j).0 same))
    | inr other ↦ simp other (unchanged us)
  ]
    where
      unchanged :
          (us : List ℕ)
          → ((wake (head us) (set_level int_off s)).semaphores j).value ≡ (s.semaphores j).value
      unchanged [] = refl
      unchanged (t ∷ ts) = refl

  pub v_value :
      (j : ℕ)
      → ((v i s).semaphores j).value
        ≡ (if i == j then ((s.semaphores j).value + 1) % 2 ^ 32 else (s.semaphores j).value)
  unfolding v
  v_value j = v_with_value (s.semaphores i).queue j
