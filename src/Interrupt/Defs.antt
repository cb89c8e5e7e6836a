-- ===== src/Interrupt/Defs.antt =====
-- The code of code/machine/interrupt.cc. The functions on host signals (BlockUserAbort and
-- UnBlockUserAbort) and the output are left out. `pending` is the sequence that the sorted list
-- stands for; a time is a number, below the range of `long long`.
use os_td_minf.Prelude.{
  ℕ, zero, suc, ◌+◌, ◌-◌, Bool, true, false, not, ◌&&◌, ◌||◌, Option, none, some, List, [], ◌∷◌,
  ltb, if◌then◌else◌, ◌>>=◌, ◌>>◌, assert,
}
use os_td_minf.Machine.{Machine, delayed_load}

pub data IntStatus : Type 0 where
  int_off int_on : IntStatus

pub data MachineStatus : Type 0 where
  idle_mode system_mode user_mode : MachineStatus

pub data IntType : Type 0 where
  timer_int disk_int console_write_int console_read_int network_send_int network_recv_int : IntType

-- The handler and its argument are pointers.
pub record PendingInterrupt : Type 0 where
  pub handler : ℕ
  pub arg : ℕ
  pub when : ℕ
  pub type : IntType

pub record Interrupt : Type 0 where
  pub level : IntStatus
  pub pending : List PendingInterrupt
  pub in_handler : Bool
  pub yield_on_return : Bool
  pub status : MachineStatus

pub record Statistics : Type 0 where
  pub total_ticks : ℕ
  pub idle_ticks : ℕ
  pub system_ticks : ℕ
  pub user_ticks : ℕ

-- The globals `interrupt`, `stats` and `machine`, and what the rest of the kernel keeps.
pub record Simulation (W : Type 0) : Type 0 where
  pub interrupt : Interrupt
  pub stats : Statistics
  pub machine : Option Machine
  pub world : W

abbrev pub user_tick : ℕ
user_tick = 1

abbrev pub system_tick : ℕ
system_tick = 10

abbrev pub is_off : IntStatus → Bool
is_off int_off = true
is_off int_on = false

abbrev pub is_idle : MachineStatus → Bool
is_idle idle_mode = true
is_idle system_mode = false
is_idle user_mode = false

abbrev pub is_timer : IntType → Bool
is_timer timer_int = true
is_timer t = false

abbrev pub is_nil {ℓ} : {A : Type ℓ} → List A → Bool
is_nil [] = true
is_nil (x ∷ xs) = false

-- SortedInsert on the pending interrupts: behind those that are not later.
abbrev pub insert : PendingInterrupt → List PendingInterrupt → List PendingInterrupt
insert p [] = p ∷ []
insert p (q ∷ qs) = if ltb p.when q.when then p ∷ (q ∷ qs) else q ∷ insert p qs

-- The constructor.
unfoldable pub create : Interrupt
create = record {
  level = int_off;
  pending = [];
  in_handler = false;
  yield_on_return = false;
  status = system_mode;
}

-- The two additions at the start of OneTick.
unfoldable pub tick : MachineStatus → Statistics → Statistics
tick user_mode t = record t {
  total_ticks = t.total_ticks + user_tick;
  user_ticks = t.user_ticks + user_tick;
}
tick system_mode t = record t {
  total_ticks = t.total_ticks + system_tick;
  system_ticks = t.system_ticks + system_tick;
}
tick idle_mode t = record t {
  total_ticks = t.total_ticks + user_tick;
  user_ticks = t.user_ticks + user_tick;
}

-- `if (machine != NULL && status == UserMode) machine->DelayedLoad(0, 0);`
abbrev pub finish_load : MachineStatus → Option Machine → Option (Option Machine)
finish_load user_mode (some m) = delayed_load m 0 0 >>= λ m'. some (some m')
finish_load user_mode none = some none
finish_load system_mode m = some m
finish_load idle_mode m = some m

module _ {W : Type 0} where
  abbrev pub with_interrupt : (Interrupt → Interrupt) → Simulation W → Simulation W
  with_interrupt f s = record s { interrupt = f s.interrupt }

  unfoldable pub change_level : IntStatus → Simulation W → Simulation W
  change_level now = with_interrupt λ i. record i { level = now }

  abbrev pub set_pending : List PendingInterrupt → Simulation W → Simulation W
  set_pending ps = with_interrupt λ i. record i { pending = ps }

  abbrev pub set_status : MachineStatus → Simulation W → Simulation W
  set_status st = with_interrupt λ i. record i { status = st }

  abbrev pub set_in_handler : Bool → Simulation W → Simulation W
  set_in_handler b = with_interrupt λ i. record i { in_handler = b }

  abbrev pub set_yield : Bool → Simulation W → Simulation W
  set_yield b = with_interrupt λ i. record i { yield_on_return = b }

  -- Interrupt::YieldOnReturn
  unfoldable pub yield_on_return : Simulation W → Option (Simulation W)
  yield_on_return s = do assert s.interrupt.in_handler; some (set_yield true s)

  unfoldable pub schedule : ℕ → ℕ → ℕ → IntType → Simulation W → Option (Simulation W)
  schedule handler arg from_now type s = do
    let to_occur : PendingInterrupt = record {
      handler = handler;
      arg = arg;
      when = s.stats.total_ticks + from_now;
      type = type;
    }
    assert (ltb 0 from_now)
    some (set_pending (insert to_occur s.interrupt.pending) s)

  -- `stats->idleTicks += (when - stats->totalTicks); stats->totalTicks = when;`
  abbrev pub advance_clock : ℕ → Simulation W → Simulation W
  advance_clock when s = record s {
    stats = record s.stats {
      idle_ticks = s.stats.idle_ticks + (when - s.stats.total_ticks);
      total_ticks = when;
    };
  }

  -- The procedure call of an interrupt's handler.
  module _ (call : PendingInterrupt → Simulation W → Option (Simulation W)) where
    -- The end of CheckIfDue: the handler is invoked. `old` is the machine status before it.
    unfoldable pub fire :
        MachineStatus → PendingInterrupt → Simulation W → Option (Bool × Simulation W)
    fire old p s = do
      m ← finish_load s.interrupt.status s.machine
      s' ← call p (set_status system_mode (set_in_handler true (record s { machine = m })))
      some (true, set_in_handler false (set_status old s'))

    -- From the test whether there is nothing more to do on.
    abbrev pub fire_or_stop :
        MachineStatus
        → PendingInterrupt
        → List PendingInterrupt
        → Simulation W
        → Option (Bool × Simulation W)
    fire_or_stop old p ps s =
        let fired = fire old p s in
        if is_idle s.interrupt.status && is_timer p.type && is_nil ps
        then some (false, set_pending (insert p ps) s)
        else fired

    abbrev pub check_first :
        Bool → Simulation W → List PendingInterrupt → Option (Bool × Simulation W)
    check_first advance s [] = some (false, s)
    check_first advance s (p ∷ ps) =
        let removed = set_pending ps s in
        let old = s.interrupt.status in
        let advanced = fire_or_stop old p ps (advance_clock p.when removed) in
        let due = fire_or_stop old p ps removed in
        if advance && ltb s.stats.total_ticks p.when
        then advanced
        else if ltb s.stats.total_ticks p.when
        then some (false, set_pending (insert p ps) removed)
        else due

    unfoldable pub check_if_due : Bool → Simulation W → Option (Bool × Simulation W)
    check_if_due advance s = do
      assert (is_off s.interrupt.level)
      check_first advance s s.interrupt.pending

    -- `while (CheckIfDue(FALSE)) ;` for at most the given number of rounds.
    abbrev pub again :
        (Simulation W → Option (Simulation W)) → Bool × Simulation W → Option (Simulation W)
    again rest (true, s) = rest s
    again rest (false, s) = some s

    unfoldable pub due_loop : ℕ → Simulation W → Option (Simulation W)
    due_loop zero s = none
    due_loop (suc k) s = check_if_due false s >>= again (due_loop k)

  -- The same, and Yield of the current thread.
  module _ (call : PendingInterrupt → Simulation W → Option (Simulation W))
      (yield : Simulation W → Option (Simulation W)) where
    abbrev pub yield_if_asked : MachineStatus → Simulation W → Option (Simulation W)
    yield_if_asked old s =
        let yielded =
          yield (set_status system_mode (set_yield false s)) >>= λ s'. some (set_status old s') in
        if s.interrupt.yield_on_return then yielded else some s

    unfoldable pub one_tick : ℕ → Simulation W → Option (Simulation W)
    one_tick rounds s = do
      let ticked = record s { stats = tick s.interrupt.status s.stats }
      s' ← due_loop call rounds (change_level int_off ticked)
      yield_if_asked s.interrupt.status (change_level int_on s')

    -- The old level, and the state after.
    unfoldable pub set_level : ℕ → IntStatus → Simulation W → Option (IntStatus × Simulation W)
    set_level rounds now s = do
      let old = s.interrupt.level
      assert (is_off now || not s.interrupt.in_handler)
      let changed = change_level now s
      let ticked = one_tick rounds changed >>= λ s'. some (old, s')
      if not (is_off now) && is_off old then ticked else some (old, changed)

    unfoldable pub enable : ℕ → Simulation W → Option (Simulation W)
    enable rounds s = set_level rounds int_on s >>= λ (r : IntStatus × Simulation W). some r.1

    -- `false` when there was nothing to wait for: the call of Halt, which does not return.
    abbrev pub after_first : ℕ → Bool × Simulation W → Option (Bool × Simulation W)
    after_first rounds (false, s) = some (false, s)
    after_first rounds (true, s) =
        due_loop call rounds s >>= λ s'. some (true, set_status system_mode (set_yield false s'))

    unfoldable pub idle : ℕ → Simulation W → Option (Bool × Simulation W)
    idle rounds s = check_if_due call true (set_status idle_mode s) >>= after_first rounds
