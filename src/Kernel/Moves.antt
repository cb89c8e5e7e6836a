-- ===== src/Kernel/Moves.antt =====
-- What Scheduler and Semaphore do to the lists of threads keeps them in order.
use os_td_minf.Prelude.{
  ℕ, ◌+◌, ◌≤◌, ◌≡◌, sym, subst, ◌≢◌, ◌⊎◌, inl, inr, List, [], ◌∷◌, ◌++◌, arith, ◌==◌, ==_iff,
  Bool-cases,
}
use os_td_minf.Machine.{update}
use os_td_minf.Kernel.Defs.{ThreadStatus, Point, Semaphore}
use os_td_minf.Kernel.Threads.{AllIn, Fresh, NoDup, total, AllIn-append, NoDup-append, total-append}
use os_td_minf.Kernel.Queues.{Queues, waits_on, IsReady, Waits, update_self, update_ne}

module _ {share : ℕ → ℕ} {ts : List ℕ} {status : ℕ → ThreadStatus} {point : ℕ → Point}
    {sems : ℕ → Semaphore} where
  -- More units may be taken up.
  pub share-Queues :
      (share' : ℕ → ℕ)
      → Queues share ts status point sems
      → ((i : ℕ) → share i ≤ share' i)
      → Queues share' ts status point sems
  share-Queues share' q more = record {
    all_ready = q.all_ready;
    ready_once = q.ready_once;
    all_wait = q.all_wait;
    wait_once = q.wait_once;
    none_lost = λ i. elim (q.none_lost i) [
      | inl none_wait ↦ inl none_wait
      | inr few ↦ inr (omega (arith, few, more i))
    ];
  }

  -- A ready thread leaves the list.
  pub pop-Queues :
      (t : ℕ)
      → Queues share (t ∷ ts) status point sems
      → Queues (λ i. share i + waits_on i (point t)) ts status point sems
  pop-Queues t q = record {
    all_ready = q.all_ready.1;
    ready_once = q.ready_once.1;
    all_wait = q.all_wait;
    wait_once = q.wait_once;
    none_lost = λ i. elim (q.none_lost i) [
      | inl none_wait ↦ inl none_wait
      | inr few ↦ inr (omega (arith, few))
    ];
  }

  -- A thread that is ready, and in no list, enters it.
  pub push-Queues :
      (share' : ℕ → ℕ) (t : ℕ)
      → Queues share ts status point sems
      → IsReady status point t
      → Fresh t ts
      → ((i : ℕ) → share i ≤ share' i + waits_on i (point t))
      → Queues share' (ts ++ (t ∷ [])) status point sems
  push-Queues share' t q is_ready out more = record {
    all_ready = AllIn-append _ ts t q.all_ready is_ready;
    ready_once = NoDup-append ts t q.ready_once out;
    all_wait = q.all_wait;
    wait_once = q.wait_once;
    none_lost = λ i. elim (q.none_lost i) [
      | inl none_wait ↦ inl none_wait
      | inr few ↦ inr (omega (arith, few, more i, total-append (λ u. waits_on i (point u)) ts t))
    ];
  }

  -- One semaphore changes.
  pub semaphore-Queues :
      (share' : ℕ → ℕ) (i : ℕ) (sem : Semaphore)
      → Queues share ts status point sems
      → ((j : ℕ) → i ≢ j → share j ≤ share' j)
      → AllIn (Waits status point i) sem.queue
      → NoDup sem.queue
      → (sem.queue ≡ []) ⊎ (sem.value ≤ total (λ t. waits_on i (point t)) ts + share' i)
      → Queues share' ts status point (update sems i sem)
  semaphore-Queues share' i sem q more wait once lost = record {
    all_ready = q.all_ready;
    ready_once = q.ready_once;
    all_wait = λ j. (parts j).0;
    wait_once = λ j. (parts j).1;
    none_lost = λ j. (parts j).2;
  }
    where
      Part : ℕ → Semaphore → Type 0
      Part j other =
          AllIn (Waits status point j) other.queue
          × NoDup other.queue
          × ((other.queue ≡ []) ⊎ (other.value ≤ total (λ t. waits_on j (point t)) ts + share' j))

      parts : (j : ℕ) → Part j (update sems i sem j)
      parts j = elim (Bool-cases (i == j)) [
        | inl same ↦
            let e : i ≡ j = (==_iff i j).0 same in
            subst (λ k. Part k (update sems i sem k)) e
              (subst (Part i) (sym (update_self sems i sem)) (wait, once, lost))
        | inr other ↦
            let ne : i ≢ j = λ e. ground (arith, other, ==_iff i j) in
            let kept : (sems j).queue ≡ []
                ⊎ (sems j).value ≤ total (λ t. waits_on j (point t)) ts + share' j =
              elim (q.none_lost j) [
                | inl none_wait ↦ inl none_wait
                | inr few ↦ inr (omega (arith, few, more j ne))
              ] in
            subst (Part j) (sym (update_ne sems sem ne)) (q.all_wait j, q.wait_once j, kept)
      ]
