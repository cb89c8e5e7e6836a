-- ===== src/Kernel/Calls.antt =====
-- Runs of the kernel: what threads and interrupt handlers call, one call after another.
use os_td_minf.Prelude.{
  ℕ, ◌+◌, Bool, true, false, not, ◌&&◌, ◌||◌, Option, none, some, List, [], ◌∷◌, ◌==◌,
  if◌then◌else◌, ◌>>=◌,
}
use os_td_minf.Machine.{update}
use os_td_minf.Interrupt.Defs.{IntStatus, int_on}
use os_td_minf.Kernel.Defs.{
  just_created, running, Point, outside, fresh, in_yield, in_p, finished, System, seek, p_loop, p,
  v, set_level, yield, finish_yield, start, setup_thread_state, finish, halt, new_semaphore,
}
use os_td_minf.Kernel.Queues.{waits_on}
use os_td_minf.Kernel.Waiting.{is_outside}

-- Calls of the thread that runs, or, for V, of an interrupt handler. `resume` is what the thread that
-- Run switched to does next: the rest of Yield or of P, or SetupThreadState; or it is the loop of
-- Sleep once more, after an interrupt.
pub data Call : Type 0 where
  p_call v_call start_call : ℕ → Call
  level_call : IntStatus → Call
  yield_call finish_call halt_call resume : Call

-- A thread that has finished is deleted and has nothing to do next.
abbrev pub resume_at : Point → System → Option System
resume_at outside s = some s
resume_at fresh s = some (setup_thread_state s)
resume_at (in_yield old) s = some (finish_yield old s)
resume_at (in_p i old) s = p_loop i old s
resume_at finished s = none

unfoldable pub perform : Call → System → Option System
perform (p_call i) s = p i s
perform (v_call i) s = some (v i s)
perform (start_call t) s = start t s
perform (level_call now) s = some (set_level now s)
perform yield_call s = yield s
perform finish_call s = finish s
perform halt_call s = some (halt s)
perform resume s = if s.idling then seek s else resume_at (s.point s.current) s

abbrev pub runs : System → Bool
runs s = not s.idling && is_outside (s.point s.current)

-- Whether the call can be made: by the thread that runs its own code; V also by a handler while Sleep
-- waits.
unfoldable pub allowed : Call → System → Bool
allowed (p_call i) s = runs s
allowed (v_call i) s = s.idling || runs s
allowed (start_call t) s = runs s
allowed (level_call now) s = runs s
allowed yield_call s = runs s
allowed finish_call s = runs s
allowed halt_call s = runs s
allowed resume s = true

-- Units of semaphore j that P has given to its caller, and that V has put back, in one call.
abbrev pub takes : ℕ → Call → System → System → ℕ
takes j (p_call i) s s' = if i == j && is_outside (s'.point s.current) then 1 else 0
takes j (v_call i) s s' = 0
takes j (start_call t) s s' = 0
takes j (level_call now) s s' = 0
takes j yield_call s s' = 0
takes j finish_call s s' = 0
takes j halt_call s s' = 0
takes j resume s s' =
    if not s.idling && is_outside (s'.point s.current) then waits_on j (s.point s.current) else 0

abbrev pub gives : ℕ → Call → ℕ
gives j (p_call i) = 0
gives j (v_call i) = if i == j then 1 else 0
gives j (start_call t) = 0
gives j (level_call now) = 0
gives j yield_call = 0
gives j finish_call = 0
gives j halt_call = 0
gives j resume = 0

-- A run, with the units of semaphore j taken and given in it.
pub record Run : Type 0 where
  pub system : System
  pub taken : ℕ
  pub given : ℕ

abbrev pub counted : ℕ → Call → Run → Option System → Option Run
counted j c r done = do
  s' ← done
  some
      (record { system = s'; taken = r.taken + takes j c r.system s'; given = r.given + gives j c })

-- A call that cannot be made is left out.
unfoldable pub step : ℕ → Call → Run → Option Run
step j c r =
    let done = counted j c r (perform c r.system) in if allowed c r.system then done else some r

unfoldable pub run_calls : ℕ → List Call → Run → Option Run
run_calls j [] r = some r
run_calls j (c ∷ cs) r = do r' ← step j c r; run_calls j cs r'

-- After Initialize: the main thread, number 0, runs; the others are not started.
unfoldable pub boot : (ℕ → ℕ) → System
boot initial_value = record {
  current = 0;
  ready_list = [];
  halted = false;
  status = update (λ t. just_created) 0 running;
  point = λ t. outside;
  to_be_destroyed = none;
  level = int_on;
  idling = false;
  semaphores = λ i. new_semaphore (initial_value i);
}
