-- ===== src/Kernel/Tests.antt =====
-- Runs of the kernel on concrete calls, and the properties at them.
use os_td_minf.Prelude.{
  ℕ, ◌≡◌, refl, ap, true, none, some, List, [], ◌∷◌, arith, ◌==◌, if◌then◌else◌, length,
}
use os_td_minf.Kernel.Defs.{
  System, run, seek, find_next_to_run, ready_to_run, sleep, p_loop, p, v, yield, finish_yield,
  start, setup_thread_state, new_semaphore, acquire,
}
use os_td_minf.Kernel.Calls.{
  Call, p_call, v_call, start_call, yield_call, resume, perform, runs, allowed, Run, step,
  run_calls, boot,
}
use os_td_minf.Kernel.Locks.{LockRun, LockState, booted, acquires, calls, mutual_exclusion}
use os_td_minf.Kernel.Runs.{started}
use os_td_minf.Kernel.Turns.{turns}
use os_td_minf.Kernel.Guarantees.{no_lost_wake_up, ready_thread_runs}

-- Semaphore 0 is a lock, semaphore 1 counts from 0.
abbrev initial : ℕ → ℕ
initial i = if i == 0 then 1 else 0

abbrev run_from_boot : ℕ → List Call → Run
run_from_boot j cs = elim (run_calls j cs (started initial)) [ none ↦ started initial | some r ↦ r ]

-- The main thread takes the lock; thread 1, which it starts, waits for the lock; the main thread
-- gives it back and yields, and thread 1 takes it.
abbrev contend : List Call
contend =
    start_call 1
    ∷ (p_call 0
        ∷ (yield_call
            ∷ (resume ∷ (p_call 0 ∷ (resume ∷ (v_call 0 ∷ (yield_call ∷ (resume ∷ []))))))))

contend_runs : run_calls 0 contend (started initial) ≡ some (run_from_boot 0 contend)
unfolding run_calls step perform allowed p p_loop sleep seek find_next_to_run run yield ready_to_run
    v start finish_yield setup_thread_state boot new_semaphore
contend_runs = refl

contend_runs_thread_1 : (run_from_boot 0 contend).system.current ≡ 1
unfolding run_calls step perform allowed p p_loop sleep seek find_next_to_run run yield ready_to_run
    v start finish_yield setup_thread_state boot new_semaphore
contend_runs_thread_1 = refl

contend_waits : (run_from_boot 0 contend).system.ready_list ≡ 0 ∷ []
unfolding run_calls step perform allowed p p_loop sleep seek find_next_to_run run yield ready_to_run
    v start finish_yield setup_thread_state boot new_semaphore
contend_waits = refl

contend_takes_twice : (run_from_boot 0 contend).taken ≡ 2
unfolding run_calls step perform allowed p p_loop sleep seek find_next_to_run run yield ready_to_run
    v start finish_yield setup_thread_state boot new_semaphore
contend_takes_twice = refl

-- Both threads wait for semaphore 1.
abbrev all_wait : List Call
all_wait = start_call 1 ∷ (p_call 1 ∷ (resume ∷ (p_call 1 ∷ [])))

-- Three threads are ready to run.
abbrev three : List Call
three = start_call 1 ∷ (start_call 2 ∷ (start_call 3 ∷ []))

-- The main thread starts thread 1 twice.
abbrev start_twice : List Call
start_twice = start_call 1 ∷ (start_call 1 ∷ [])

start_twice_fails : run_calls 0 start_twice (started initial) ≡ none
unfolding run_calls step perform allowed ready_to_run start boot new_semaphore
start_twice_fails = refl

no_lost_wake_up_example : ((run_from_boot 1 all_wait).system.semaphores 1).value ≡ 0
unfolding run_calls step perform allowed p p_loop sleep seek find_next_to_run run yield ready_to_run
    v start finish_yield setup_thread_state boot new_semaphore
no_lost_wake_up_example =
    no_lost_wake_up initial 1 all_wait (run_from_boot 1 all_wait) refl refl refl 1
      (λ e. ground (arith, ap length e))

ready_thread_runs_example :
    (s' : System) × (turns 2 (run_from_boot 0 three).system ≡ some s')
    × (s'.current ≡ 2)
    × (runs s' ≡ true)
unfolding run_calls step perform allowed p p_loop sleep seek find_next_to_run run yield ready_to_run
    v start finish_yield setup_thread_state boot new_semaphore
ready_thread_runs_example =
    ready_thread_runs initial 0 three (run_from_boot 0 three) (1 ∷ []) 2 (3 ∷ []) refl refl refl
      refl (refl, (refl, tt))

-- The state after a call that returns.
abbrev next : Call → System → System
next c s = elim (perform c s) [ none ↦ s | some s' ↦ s' ]

-- The main thread, 0, holds the lock, and thread 1 waits for it.
abbrev started_1 : System
started_1 = next (start_call 1) (boot initial)

abbrev main_holds : System
main_holds = next (p_call 0) started_1

abbrev thread_1_begins : System
thread_1_begins = next resume (next yield_call main_holds)

abbrev thread_1_waits : System
thread_1_waits = next resume (next (p_call 0) thread_1_begins)

thread_1_waits_lem : LockRun initial 0 (0 ∷ []) thread_1_waits
unfolding perform allowed p p_loop sleep seek find_next_to_run run yield ready_to_run start
    finish_yield setup_thread_state boot new_semaphore acquire
thread_1_waits_lem =
    let begun : LockRun initial 0 [] (boot initial) = booted [] (boot initial) refl refl in
    let first : LockRun initial 0 [] started_1 =
      calls (start_call 1) [] [] (boot initial) started_1 begun refl refl refl refl in
    let held : LockRun initial 0 (0 ∷ []) main_holds =
      acquires [] (0 ∷ []) started_1 main_holds first refl refl refl in
    let yielded : LockRun initial 0 (0 ∷ []) (next yield_call main_holds) =
      calls yield_call (0 ∷ []) (0 ∷ []) main_holds _ held refl refl refl refl in
    let began : LockRun initial 0 (0 ∷ []) thread_1_begins =
      calls resume (0 ∷ []) (0 ∷ []) (next yield_call main_holds) _ yielded refl refl refl refl in
    let waiting : LockRun initial 0 (0 ∷ []) (next (p_call 0) thread_1_begins) =
      acquires (0 ∷ []) (0 ∷ []) thread_1_begins _ began refl refl refl in
    calls resume (0 ∷ []) (0 ∷ []) (next (p_call 0) thread_1_begins) _ waiting refl refl refl refl

mutual_exclusion_example : LockState 0 (0 ∷ []) thread_1_waits
mutual_exclusion_example =
    mutual_exclusion initial 0 (0 ∷ []) thread_1_waits refl thread_1_waits_lem
