-- ===== src/Kernel/Guarantees.antt =====
-- What the scheduler and the semaphores of code/threads promise, in every run from Initialize on.
use os_td_minf.Prelude.{
  ℕ, suc, ◌≡◌, refl, sym, ap, subst, ◌∙◌, ◌≢◌, inl, inr, true, false, none, some, List, [], ◌∷◌,
  ◌++◌, arith, length,
}
use os_td_minf.Kernel.Defs.{System}
use os_td_minf.Kernel.Threads.{total}
use os_td_minf.Kernel.Queues.{waits_on}
use os_td_minf.Kernel.Valid.{Valid, works, waits}
use os_td_minf.Kernel.Waiting.{is_outside}
use os_td_minf.Kernel.Calls.{Call, runs, Run, run_calls}
use os_td_minf.Kernel.Safety.{runs-Outside}
use os_td_minf.Kernel.Runs.{
  Sound, Goes, all_return, starts_again, run_calls-Goes, started, started-Sound,
}
use os_td_minf.Kernel.Turns.{turns, turns_lem, AllGoOn}

pub calls_return :
    (initial_value : ℕ → ℕ) (j : ℕ) (cs : List Call)
    → Goes (initial_value j) j (started initial_value) cs (run_calls j cs (started initial_value))
calls_return initial_value j cs =
    run_calls-Goes (initial_value j) j cs (started initial_value) (started-Sound initial_value j)

none_ne_some : {r : Run} → none ≢ some r
none_ne_some e = ground arith

some-inj : {A : Type 0} {x y : A} → some x ≡ some y → x ≡ y
some-inj {x = x} e = ap (λ o. elim o [ none ↦ x | some z ↦ z ]) e

-- What a run leads to is sound.
reached-Sound :
    (initial_value : ℕ → ℕ) (j : ℕ) (cs : List Call) (r : Run)
    → run_calls j cs (started initial_value) ≡ some r
    → Sound (initial_value j) j r
reached-Sound initial_value j cs r done = elim (calls_return initial_value j cs) [
  | all_return r' done' sound ↦
      subst (Sound (initial_value j) j) (some-inj (sym done' ∙ done)) sound
  | starts_again before t after r' is q sound able old fails ↦
      absurd (none_ne_some (sym fails ∙ done))
]

-- When Sleep waits for an interrupt since no thread is ready, every semaphore that some thread waits
-- for is at 0: no wake-up is lost.
pub no_lost_wake_up :
    (initial_value : ℕ → ℕ) (j : ℕ) (cs : List Call) (r : Run)
    → run_calls j cs (started initial_value) ≡ some r
    → r.system.idling ≡ true
    → r.system.ready_list ≡ []
    → (i : ℕ) → (r.system.semaphores i).queue ≢ []
    → (r.system.semaphores i).value ≡ 0
no_lost_wake_up initial_value j cs r done idling empty i somebody =
    at_zero (reached-Sound initial_value j cs r done).0
  where
    at_zero : Valid r.system → (r.system.semaphores i).value ≡ 0
    at_zero (works live q) = ground (arith, live.awake, idling)
    at_zero (waits idle q) = elim (q.none_lost i) [
      | inl nobody ↦ absurd (somebody nobody)
      | inr few ↦ omega (arith, few, ap (λ ts. total (λ t. waits_on i (r.system.point t)) ts) empty)
    ]

-- When a thread runs and the n threads ahead of t on the ready list, and t, are new or in Yield, t
-- runs after n + 1 calls of Yield, one by each thread that gets the processor, unless the scheduler was halted.
pub ready_thread_runs :
    (initial_value : ℕ → ℕ) (j : ℕ) (cs : List Call) (r : Run) (us : List ℕ) (t : ℕ) (vs : List ℕ)
    → run_calls j cs (started initial_value) ≡ some r
    → runs r.system ≡ true
    → r.system.halted ≡ false
    → r.system.ready_list ≡ us ++ (t ∷ vs)
    → AllGoOn r.system.point (us ++ (t ∷ []))
    → (s' : System) × (turns (suc (length us)) r.system ≡ some s')
      × (s'.current ≡ t)
      × (runs s' ≡ true)
ready_thread_runs initial_value j cs r us t vs done able going list goes =
    let (s', turned, here, is_current) =
      turns_lem us t vs r.system
        (runs-Outside r.system (reached-Sound initial_value j cs r done).0 able) going list goes in
    (s', turned, is_current, simp (here.live.awake, ap is_outside here.is_outside) refl)
