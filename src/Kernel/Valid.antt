-- ===== src/Kernel/Valid.antt =====
-- What holds whenever the processor is between two operations, and Run keeps it.
use os_td_minf.Prelude.{
  ℕ, ◌≡◌, refl, sym, ap, subst, ◌≢◌, ◌⊎◌, inl, inr, Bool, true, false, Option, none, some, List, [],
  ◌∷◌, arith, if◌then◌else◌, ==_ne, Bool-cases,
}
use os_td_minf.Machine.{update}
use os_td_minf.Interrupt.Defs.{int_off, is_off}
use os_td_minf.Kernel.Defs.{
  running, blocked, outside, finished, System, run, run_or_idle, seek, find_next_to_run, first_of,
  destroy_carcass,
}
use os_td_minf.Kernel.Threads.{Fresh}
use os_td_minf.Kernel.Queues.{
  Queues, is_finished, waits_on, IsReady, update_self, status-Queues, status_ne, not_blocked-Fresh,
}
use os_td_minf.Kernel.Moves.{share-Queues, pop-Queues}

abbrev pub QueuesOf : (ℕ → ℕ) → System → Type 0
QueuesOf share s = Queues share s.ready_list s.status s.point s.semaphores

-- The current thread's share of the units of semaphore i: it has been woken in P of it.
abbrev pub own_share : System → ℕ → ℕ
own_share s i = waits_on i (s.point s.current)

abbrev pub Doomed : System → Type 0
Doomed s =
    (s.to_be_destroyed ≡ none)
    ⊎ ((d : ℕ) × (s.to_be_destroyed ≡ some d) × (s.status d ≡ blocked) × (s.point d ≡ finished))

pub record Live (s : System) : Type 0 where
  pub awake : s.idling ≡ false
  pub is_running : s.status s.current ≡ running
  pub not_finished : is_finished (s.point s.current) ≡ false
  pub nobody_doomed : s.to_be_destroyed ≡ none
  pub masked : (s.point s.current ≡ outside) ⊎ (s.level ≡ int_off)

pub record Idle (s : System) : Type 0 where
  pub is_idling : s.idling ≡ true
  pub is_masked : s.level ≡ int_off
  pub doomed : Doomed s

-- Either a thread runs, or the one that called Sleep waits for a ready thread.
pub data Valid (s : System) : Type 0 where
  works : Live s → QueuesOf (own_share s) s → Valid s
  waits : Idle s → QueuesOf (λ i. 0) s → Valid s

-- An operation that fails no ASSERT, keeps the system valid and leaves the semaphores as they are.
abbrev pub Keeps : System → Option System → Type 0
Keeps s r = (s' : System) × (r ≡ some s') × Valid s' × (s'.semaphores ≡ s.semaphores)

-- One that leaves what each thread is doing as it is, too.
abbrev pub Switches : System → Option System → Type 0
Switches s r =
    (s' : System) × (r ≡ some s') × Valid s' × (s'.semaphores ≡ s.semaphores) × (s'.point ≡ s.point)

-- Run of a ready thread that is in no list.
pub run-Switches :
    (t : ℕ) (s : System)
    → s.level ≡ int_off
    → Doomed s
    → QueuesOf (λ i. waits_on i (s.point t)) s
    → IsReady s.status s.point t
    → Fresh t s.ready_list
    → Switches s (run t s)
unfolding run
run-Switches t s off doomed q is_ready out = elim doomed [
  | inl nobody ↦ (
    start,
    simp (ap is_off off, ap (λ o. destroy_carcass o start) nobody) refl,
    works (live s.to_be_destroyed nobody) queues,
    refl,
    refl,
  )
  | inr (d, is, is_blocked, has_finished) ↦
      let ne : d ≢ t = status_ne s.status is_blocked is_ready.0 (λ e. omega (arith, e)) in
      (
        record start { to_be_destroyed = none },
        simp (ap is_off off, ap (λ o. destroy_carcass o start) is, ==_ne d t ne) refl,
        works (live none refl) queues,
        refl,
        refl,
      )
]
  where
    start : System
    start = record s { current = t; idling = false; status = update s.status t running }

    queues : Queues (λ i. waits_on i (s.point t)) s.ready_list start.status s.point s.semaphores
    queues =
        status-Queues q t running out
          (λ i. not_blocked-Fresh q t i is_ready.0 (λ e. omega (arith, e)))

    live : (o : Option ℕ) → o ≡ none → Live (record start { to_be_destroyed = o })
    live o nobody = record {
      awake = refl;
      is_running = update_self s.status t running;
      not_finished = is_ready.1;
      nobody_doomed = nobody;
      masked = inr off;
    }

-- FindNextToRun and Run, or Idle.
pub seek-Switches :
    (s : System) → s.level ≡ int_off → Doomed s → QueuesOf (λ i. 0) s → Switches s (seek s)
unfolding seek find_next_to_run
seek-Switches s off doomed q = elim (Bool-cases s.halted) [
  | inl halted ↦ subst found (sym halted) idles
  | inr going ↦ subst found (sym going) (first s.ready_list refl)
]
  where
    found : Bool → Type 0
    found b = Switches s (run_or_idle (if b then (none, s) else first_of s.ready_list s))

    idles : Switches s (some (record s { idling = true }))
    idles =
        let idle : Idle (record s { idling = true }) = record {
          is_idling = refl;
          is_masked = off;
          doomed = doomed;
        } in
        (record s { idling = true }, refl, waits idle q, refl, refl)

    first : (ts : List ℕ) → ts ≡ s.ready_list → Switches s (run_or_idle (first_of ts s))
    first [] e = idles
    first (t ∷ ts) e =
        let q' : Queues (λ i. 0) (t ∷ ts) s.status s.point s.semaphores =
          subst (λ us. Queues (λ i. 0) us s.status s.point s.semaphores) (sym e) q in
        run-Switches t (record s { ready_list = ts }) off doomed
          (share-Queues (λ i. waits_on i (s.point t)) (pop-Queues t q') (λ i. omega arith))
          q'.all_ready.0 q'.ready_once.0
