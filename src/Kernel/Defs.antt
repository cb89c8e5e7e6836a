-- ===== src/Kernel/Defs.antt =====
-- The code of code/threads/scheduler.cc, thread.cc and synch.cc on one processor. A thread that
-- gives up the processor does so inside Run; `point` says, for every thread, what it does when Run
-- returns to it. Stacks, user registers and the simulated clock are left out.
use os_td_minf.Prelude.{
  ℕ, ◌+◌, ◌-◌, ◌%◌, ◌^◌, Bool, true, false, not, Option, none, some, List, [], ◌∷◌, ◌++◌, ◌==◌,
  if◌then◌else◌, ◌>>◌, assert,
}
use os_td_minf.Machine.{update}
use os_td_minf.Interrupt.Defs.{IntStatus, int_off, int_on, is_off}

pub data ThreadStatus : Type 0 where
  just_created running ready blocked : ThreadStatus

-- Where a thread is: in its own code, not started yet, in Yield or in P of a semaphore (each with the
-- level to go back to), or in Finish.
pub data Point : Type 0 where
  outside : Point
  fresh : Point
  in_yield : IntStatus → Point
  in_p : ℕ → IntStatus → Point
  finished : Point

-- `value` is an `int`, here the number below 2 ^ 32 with its bits. P decrements it only when it is not 0,
-- so that only V wraps around.
pub record Semaphore : Type 0 where
  pub value : ℕ
  pub queue : List ℕ

-- Threads and semaphores have numbers. `idling` says that the current thread is in the loop of Sleep.
pub record System : Type 0 where
  pub current : ℕ
  pub ready_list : List ℕ
  pub halted : Bool
  pub status : ℕ → ThreadStatus
  pub point : ℕ → Point
  pub to_be_destroyed : Option ℕ
  pub level : IntStatus
  pub idling : Bool
  pub semaphores : ℕ → Semaphore

abbrev pub set_status : ℕ → ThreadStatus → System → System
set_status t st s = record s { status = update s.status t st }

abbrev pub set_point : ℕ → Point → System → System
set_point t p s = record s { point = update s.point t p }

abbrev pub set_level : IntStatus → System → System
set_level now s = record s { level = now }

abbrev pub set_semaphore : ℕ → Semaphore → System → System
set_semaphore i sem s = record s { semaphores = update s.semaphores i sem }

unfoldable pub ready_to_run : ℕ → System → System
ready_to_run t s = record s {
  status = update s.status t ready;
  ready_list = s.ready_list ++ (t ∷ []);
}

-- The first thread of the list, and the rest, or NULL.
abbrev pub first_of : List ℕ → System → Option ℕ × System
first_of [] s = (none, s)
first_of (t ∷ ts) s = (some t, record s { ready_list = ts })

unfoldable pub halt : System → System
halt s = record s { halted = true }

unfoldable pub find_next_to_run : System → Option ℕ × System
find_next_to_run s = if s.halted then (none, s) else first_of s.ready_list s

-- What the thread that Run switched to does first, here and in SetupThreadState.
abbrev pub destroy_carcass : Option ℕ → System → Option System
destroy_carcass none s = some s
destroy_carcass (some d) s = do
  assert (not (d == s.current))
  some (record s { to_be_destroyed = none })

unfoldable pub run : ℕ → System → Option System
run next s = do
  assert (is_off s.level)
  let switched = set_status next running (record s { current = next; idling = false })
  destroy_carcass switched.to_be_destroyed switched

-- `while ((nextThread = scheduler->FindNextToRun()) == NULL) interrupt->Idle();` up to the first call
-- of Idle, which may run interrupt handlers; then Run.
abbrev pub run_or_idle : Option ℕ × System → Option System
run_or_idle (none, s) = some (record s { idling = true })
run_or_idle (some t, s) = run t s

unfoldable pub seek : System → Option System
seek s = run_or_idle (find_next_to_run s)

unfoldable pub sleep : System → Option System
sleep s = do assert (is_off s.level); seek (set_status s.current blocked s)

unfoldable pub yield : System → Option System
yield s =
    let old = s.level in
    let stays = set_level old in
    let next = find_next_to_run (set_level int_off s) in
    let switches = λ (r : Option ℕ × System).
      λ (t : ℕ). run t (ready_to_run s.current (set_point s.current (in_yield old) r.1)) in
    elim next.0 [ none ↦ some (stays next.1) | some t ↦ switches next t ]

-- The end of Yield, when the thread runs again.
unfoldable pub finish_yield : IntStatus → System → System
finish_yield old s = set_level old (set_point s.current outside s)

abbrev pub is_new : ThreadStatus → Bool
is_new just_created = true
is_new running = false
is_new ready = false
is_new blocked = false

unfoldable pub start : ℕ → System → Option System
start t s = do
  assert (is_new (s.status t))
  some (set_level s.level (ready_to_run t (set_level int_off (set_point t fresh s))))

-- SetupThreadState, in a thread that runs for the first time.
unfoldable pub setup_thread_state : System → System
setup_thread_state s = set_level int_on (set_point s.current outside s)

abbrev pub is_none : Option ℕ → Bool
is_none none = true
is_none (some t) = false

unfoldable pub finish : System → Option System
finish s = do
  assert (is_none s.to_be_destroyed)
  sleep (record (set_level int_off (set_point s.current finished s)) {
    to_be_destroyed = some s.current;
  })

-- The loop of P at its test, in the current thread; `old` is the level before P.
unfoldable pub p_loop : ℕ → IntStatus → System → Option System
p_loop i old s =
    let sem = s.semaphores i in
    let waiting : Semaphore = record sem { queue = sem.queue ++ (s.current ∷ []) } in
    let asleep = sleep (set_semaphore i waiting (set_point s.current (in_p i old) s)) in
    let taken : Semaphore = record sem { value = sem.value - 1 } in
    if sem.value == 0
    then asleep
    else some (set_level old (set_point s.current outside (set_semaphore i taken s)))

unfoldable pub p : ℕ → System → Option System
p i s = p_loop i s.level (set_level int_off s)

abbrev pub wake : Option ℕ → System → System
wake none s = s
wake (some t) s = ready_to_run t s

-- List::Remove
abbrev pub head : List ℕ → Option ℕ
head [] = none
head (t ∷ ts) = some t

abbrev pub tail : List ℕ → List ℕ
tail [] = []
tail (t ∷ ts) = ts

unfoldable pub v : ℕ → System → System
v i s =
    let sem = s.semaphores i in
    let woken = wake (head sem.queue) (set_level int_off s) in
    set_level s.level
      (set_semaphore i (record { value = (sem.value + 1) % 2 ^ 32; queue = tail sem.queue }) woken)

-- `new Semaphore (name, 1)`, the semaphore of a lock.
unfoldable pub new_semaphore : ℕ → Semaphore
new_semaphore initial_value = record { value = initial_value; queue = [] }

unfoldable pub acquire : ℕ → System → Option System
acquire lock s = p lock s

unfoldable pub release : ℕ → System → System
release lock s = v lock s
