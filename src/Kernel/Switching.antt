-- ===== src/Kernel/Switching.antt =====
-- Start, Yield and Finish of code/threads/thread.cc keep the system valid.
use os_td_minf.Prelude.{
  ℕ, ◌≡◌, refl, sym, ap, subst, ◌∙◌, ◌≢◌, inl, inr, Bool, Option, none, some, List, [], ◌∷◌, ◌++◌,
  arith, if◌then◌else◌, Bool-cases,
}
use os_td_minf.Machine.{update}
use os_td_minf.Interrupt.Defs.{IntStatus, int_off}
use os_td_minf.Kernel.Defs.{
  just_created, ready, blocked, Point, outside, fresh, in_yield, finished, System, run,
  find_next_to_run, first_of, ready_to_run, sleep, set_level, set_point, yield, start, finish,
  is_new, is_none,
}
use os_td_minf.Kernel.Threads.{AllIn-append}
use os_td_minf.Kernel.Queues.{
  Queues, is_finished, waits_on, update_self, update_ne, change-Queues, status_ne, not_ready-Fresh,
  not_blocked-Fresh, point-Queues, running-Fresh,
}
use os_td_minf.Kernel.Moves.{share-Queues, pop-Queues, push-Queues}
use os_td_minf.Kernel.Valid.{
  QueuesOf, own_share, Doomed, Live, works, Keeps, run-Switches, seek-Switches,
}

-- The thread runs its own code.
pub record Outside (s : System) : Type 0 where
  pub live : Live s
  pub queues : QueuesOf (own_share s) s
  pub is_outside : s.point s.current ≡ outside

no_share : (s : System) → s.point s.current ≡ outside → (i : ℕ) → own_share s i ≡ 0
no_share s h i = ap (waits_on i) h

-- Whatever the level, and wherever the current thread goes on.
set_level-Live : (now : IntStatus) (s : System) → Outside s → Live (set_level now s)
set_level-Live now s here =
    let live = here.live in
    record {
      awake = live.awake;
      is_running = live.is_running;
      not_finished = live.not_finished;
      nobody_doomed = live.nobody_doomed;
      masked = inl here.is_outside;
    }

pub set_level-Keeps : (now : IntStatus) (s : System) → Outside s → Keeps s (some (set_level now s))
set_level-Keeps now s here =
    (set_level now s, refl, works (set_level-Live now s here) here.queues, refl)

pub go_outside-Keeps :
    (now : IntStatus) (s : System)
    → Live s
    → QueuesOf (own_share s) s
    → ((i : ℕ) → own_share s i ≡ 0)
    → Keeps s (some (set_level now (set_point s.current outside s)))
go_outside-Keeps now s live q none_due =
    let s' : System = set_level now (set_point s.current outside s) in
    let at_outside = update_self s.point s.current outside in
    let out = running-Fresh q s.current live.is_running in
    let live' : Live s' = record {
      awake = live.awake;
      is_running = live.is_running;
      not_finished = ap is_finished at_outside;
      nobody_doomed = live.nobody_doomed;
      masked = inl at_outside;
    } in
    (
      s',
      refl,
      works live' (
          share-Queues (own_share s') (point-Queues q s.current outside out.0 out.1)
            (λ i. omega (arith, none_due i))),
      refl,
    )

pub yield-Keeps : (s : System) → Outside s → Keeps s (yield s)
unfolding yield find_next_to_run ready_to_run
yield-Keeps s here = elim (Bool-cases s.halted) [
  | inl halted ↦ subst found (sym halted) stays
  | inr going ↦ subst found (sym going) (first s.ready_list refl)
]
  where
    next : Option ℕ × System → Option System
    next r = elim r.0 [
      | none ↦ some (set_level s.level r.1)
      | some t ↦ run t (ready_to_run s.current (set_point s.current (in_yield s.level) r.1))
    ]

    found : Bool → Type 0
    found b = Keeps s (
        next
          (if b then (none, set_level int_off s) else first_of s.ready_list (set_level int_off s)))

    stays : Keeps s (some s)
    stays = (s, refl, works here.live here.queues, refl)

    first : (ts : List ℕ) → ts ≡ s.ready_list → Keeps s (next (first_of ts (set_level int_off s)))
    first [] e = stays
    first (t ∷ ts) e =
        let q : Queues (own_share s) (t ∷ ts) s.status s.point s.semaphores =
          subst (λ us. Queues (own_share s) us s.status s.point s.semaphores) (sym e) here.queues in
        let out = running-Fresh q s.current here.live.is_running in
        let away =
          change-Queues (pop-Queues t q) s.current ready (in_yield s.level) out.0.1 out.1 in
        let point' : ℕ → Point = update s.point s.current (in_yield s.level) in
        let same : point' t ≡ s.point t = update_ne s.point (in_yield s.level) out.0.0 in
        let self = update_self s.point s.current (in_yield s.level) in
        let is_ready = q.all_ready.0 in
        let pushed =
          push-Queues (λ i. waits_on i (point' t)) s.current away
            (update_self s.status s.current ready, ap is_finished self) out.0.1
            (λ i. omega (arith, no_share s here.is_outside i, ap (waits_on i) same)) in
        let (s', done, valid, same_sems, same_point) =
          run-Switches t
            (record s {
              level = int_off;
              ready_list = ts ++ (s.current ∷ []);
              status = update s.status s.current ready;
              point = point';
            })
            refl (inl here.live.nobody_doomed) pushed
            (update_ne s.status ready out.0.0 ∙ is_ready.0, ap is_finished same ∙ is_ready.1)
            (AllIn-append (λ u. t ≢ u) ts s.current q.ready_once.0 (λ k. out.0.0 (sym k))) in
        (s', done, valid, same_sems)

pub start-Keeps : (t : ℕ) (s : System) → Outside s → s.status t ≡ just_created → Keeps s (start t s)
unfolding start ready_to_run
start-Keeps t s here new =
    let live = here.live in
    let q = here.queues in
    let ne = status_ne s.status new live.is_running (λ k. omega (arith, k)) in
    let out = not_ready-Fresh q t new (λ k. omega (arith, k)) in
    let s' : System = record s {
      status = update s.status t ready;
      point = update s.point t fresh;
      ready_list = s.ready_list ++ (t ∷ []);
    } in
    let same : update s.point t fresh s.current ≡ s.point s.current = update_ne s.point fresh ne in
    let changed =
      change-Queues q t ready fresh out
        (λ i. not_blocked-Fresh q t i new (λ k. omega (arith, k))) in
    let pushed =
      push-Queues (own_share s') t changed
        (update_self s.status t ready, ap is_finished (update_self s.point t fresh)) out
        (λ i. omega (arith, no_share s here.is_outside i)) in
    let live' : Live s' = record {
      awake = live.awake;
      is_running = update_ne s.status ready ne ∙ live.is_running;
      not_finished = ap is_finished same ∙ live.not_finished;
      nobody_doomed = live.nobody_doomed;
      masked = inl (same ∙ here.is_outside);
    } in
    (s', simp (ap is_new new) refl, works live' pushed, refl)

pub finish-Keeps : (s : System) → Outside s → Keeps s (finish s)
unfolding finish sleep
finish-Keeps s here =
    let live = here.live in
    let out = running-Fresh here.queues s.current live.is_running in
    let s' : System = record s {
      level = int_off;
      to_be_destroyed = some s.current;
      status = update s.status s.current blocked;
      point = update s.point s.current finished;
    } in
    let doomed : Doomed s' = inr (
      s.current,
      refl,
      update_self s.status s.current blocked,
      update_self s.point s.current finished,
    ) in
    let changed = change-Queues here.queues s.current blocked finished out.0 out.1 in
    let (r, done, valid, same_sems, same_point) =
      seek-Switches s' refl doomed
        (share-Queues (λ i. 0) changed (λ i. omega (arith, no_share s here.is_outside i))) in
    (r, simp (ap is_none live.nobody_doomed) done, valid, same_sems)
