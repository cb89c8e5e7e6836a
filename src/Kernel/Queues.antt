-- ===== src/Kernel/Queues.antt =====
-- The ready list and the queues of the semaphores, and what changes them.
use mathlib.Core.Path.{fun_ext}
use os_td_minf.Prelude.{
  ℕ, ◌+◌, ◌≤◌, ◌≡◌, refl, sym, ap, subst, ◌∙◌, ◌≢◌, ◌⊎◌, inl, inr, Bool, true, false, List, [],
  arith, ◌==◌, if◌then◌else◌, ==_iff, ==_refl, ==_ne, Bool-cases,
}
use os_td_minf.Interrupt.Defs.{IntStatus}
use os_td_minf.Machine.{update}
use os_td_minf.Kernel.Defs.{
  ThreadStatus, just_created, running, ready, blocked, Point, outside, fresh, in_yield, in_p,
  finished, Semaphore,
}
use os_td_minf.Kernel.Threads.{
  AllIn, Fresh, NoDup, total, AllIn-map, AllIn-map_but, lacks-Fresh, total_same,
}

abbrev pub is_finished : Point → Bool
is_finished outside = false
is_finished fresh = false
is_finished (in_yield old) = false
is_finished (in_p i old) = false
is_finished finished = true

-- 1 for a thread that V of semaphore i woke, or can wake, in P.
abbrev pub waits_on : ℕ → Point → ℕ
waits_on i outside = 0
waits_on i fresh = 0
waits_on i (in_yield old) = 0
waits_on i (in_p j old) = if i == j then 1 else 0
waits_on i finished = 0

abbrev pub IsReady : (ℕ → ThreadStatus) → (ℕ → Point) → ℕ → Type 0
IsReady status point t = (status t ≡ ready) × (is_finished (point t) ≡ false)

abbrev pub Waits : (ℕ → ThreadStatus) → (ℕ → Point) → ℕ → ℕ → Type 0
Waits status point i t = (status t ≡ blocked) × (old : IntStatus) × (point t ≡ in_p i old)

-- Ready threads are marked so and have not finished; blocked ones wait in P of their semaphore; no
-- thread is in a list twice. Of a semaphore with waiting threads, no more units are left than there
-- are woken threads about to take one: those of the ready list, and `share` more.
pub record Queues (share : ℕ → ℕ) (ts : List ℕ) (status : ℕ → ThreadStatus) (point : ℕ → Point)
    (sems : ℕ → Semaphore) : Type 0 where
  pub all_ready : AllIn (IsReady status point) ts
  pub ready_once : NoDup ts
  pub all_wait : (i : ℕ) → AllIn (Waits status point i) (sems i).queue
  pub wait_once : (i : ℕ) → NoDup (sems i).queue
  pub none_lost :
      (i : ℕ)
      → ((sems i).queue ≡ []) ⊎ ((sems i).value ≤ total (λ t. waits_on i (point t)) ts + share i)

pub update_self : {A : Type 0} (f : ℕ → A) (t : ℕ) (x : A) → update f t x t ≡ x
update_self f t x = simp (==_refl t) refl

pub update_ne : {A : Type 0} (f : ℕ → A) {t u : ℕ} (x : A) → t ≢ u → update f t x u ≡ f u
update_ne f {t} {u} x h = simp (==_ne t u h) refl

pub update_id : {A : Type 0} (f : ℕ → A) (t : ℕ) → update f t (f t) ≡ f
update_id f t = fun_ext (λ u. elim (Bool-cases (t == u)) [
  | inl same ↦ simp same (ap f ((==_iff t u).0 same))
  | inr other ↦ simp other refl
])

abbrev pub code_of : ThreadStatus → ℕ
code_of just_created = 0
code_of running = 1
code_of ready = 2
code_of blocked = 3

abbrev semaphore_of : Point → ℕ
semaphore_of outside = 0
semaphore_of fresh = 0
semaphore_of (in_yield old) = 0
semaphore_of (in_p i old) = i
semaphore_of finished = 0

in_p-inj : {i j : ℕ} {a b : IntStatus} → in_p i a ≡ in_p j b → i ≡ j
in_p-inj e = ap semaphore_of e

-- Threads of different status are different.
pub status_ne :
    {a b : ThreadStatus} (status : ℕ → ThreadStatus) {t u : ℕ}
    → status t ≡ a
    → status u ≡ b
    → code_of a ≢ code_of b
    → t ≢ u
status_ne status h k ne e = ne (ap code_of (sym h ∙ ap status e ∙ k))

module _ {share : ℕ → ℕ} {ts : List ℕ} {status : ℕ → ThreadStatus} {point : ℕ → Point}
    {sems : ℕ → Semaphore} (q : Queues share ts status point sems) (t : ℕ) where
  pub not_ready-Fresh : {a : ThreadStatus} → status t ≡ a → code_of a ≢ 2 → Fresh t ts
  not_ready-Fresh h ne =
      lacks-Fresh (IsReady status point) t ts q.all_ready (λ u r. status_ne status h r.0 ne)

  pub not_blocked-Fresh :
      {a : ThreadStatus} (i : ℕ) → status t ≡ a → code_of a ≢ 3 → Fresh t (sems i).queue
  not_blocked-Fresh i h ne =
      lacks-Fresh (Waits status point i) t (sems i).queue (q.all_wait i)
        (λ u r. status_ne status h r.0 ne)

  -- A thread that is in no list may change.
  pub change-Queues :
      (st : ThreadStatus) (pt : Point)
      → Fresh t ts
      → ((i : ℕ) → Fresh t (sems i).queue)
      → Queues share ts (update status t st) (update point t pt) sems
  change-Queues st pt out_ready out_wait = record {
    all_ready =
        AllIn-map_but _ _ t ts out_ready
          (λ u ne r. (update_ne status st ne ∙ r.0, ap is_finished (update_ne point pt ne) ∙ r.1))
          q.all_ready;
    ready_once = q.ready_once;
    all_wait = λ i.
        AllIn-map_but _ _ t (sems i).queue (out_wait i)
          (λ u ne r. (update_ne status st ne ∙ r.0, r.1, update_ne point pt ne ∙ r.2))
          (q.all_wait i);
    wait_once = q.wait_once;
    none_lost = λ i. elim (q.none_lost i) [
      | inl none_wait ↦ inl none_wait
      | inr few ↦
          let same : total (λ u. waits_on i (update point t pt u)) ts
              ≡ total (λ u. waits_on i (point u)) ts =
            total_same _ _ ts
              (AllIn-map _ _ ts (λ u ne. ap (waits_on i) (update_ne point pt ne)) out_ready) in
          inr (omega (arith, few, same))
    ];
  }

  pub point-Queues :
      (pt : Point)
      → Fresh t ts
      → ((i : ℕ) → Fresh t (sems i).queue)
      → Queues share ts status (update point t pt) sems
  point-Queues pt out_ready out_wait =
      subst (λ st. Queues share ts st (update point t pt) sems) (update_id status t)
        (change-Queues (status t) pt out_ready out_wait)

  -- The current thread is in no list.
  pub running-Fresh : status t ≡ running → Fresh t ts × ((i : ℕ) → Fresh t (sems i).queue)
  running-Fresh h = (
    not_ready-Fresh h (λ e. omega (arith, e)),
    λ i. not_blocked-Fresh i h (λ e. omega (arith, e)),
  )

  pub status-Queues :
      (st : ThreadStatus)
      → Fresh t ts
      → ((i : ℕ) → Fresh t (sems i).queue)
      → Queues share ts (update status t st) point sems
  status-Queues st out_ready out_wait =
      subst (λ pt. Queues share ts (update status t st) pt sems) (update_id point t)
        (change-Queues st (point t) out_ready out_wait)

  -- A thread that waits for one semaphore waits for no other.
  pub other-Fresh : (i : ℕ) {j : ℕ} → Waits status point i t → j ≢ i → Fresh t (sems j).queue
  other-Fresh i {j} w ne =
      lacks-Fresh (Waits status point j) t (sems j).queue (q.all_wait j)
        (λ u r e. ne (in_p-inj (sym r.2 ∙ sym (ap point e) ∙ w.2)))
