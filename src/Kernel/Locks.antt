-- ===== src/Kernel/Locks.antt =====
-- Lock::Acquire and Lock::Release of code/threads/synch.cc: who holds a lock.
use os_td_minf.Prelude.{
  ℕ, zero, suc, ◌+◌, ◌%◌, ◌^◌, ◌≡◌, sym, ap, subst, ◌∙◌, ◌≢◌, inl, inr, true, ◌&&◌, none, some,
  List, [], ◌∷◌, ◌++◌, arith, if◌then◌else◌, ==_refl, length,
}
use os_td_minf.Kernel.Defs.{System, acquire, release, tail, new_semaphore}
use os_td_minf.Kernel.Valid.{Valid}
use os_td_minf.Kernel.Waiting.{is_outside}
use os_td_minf.Kernel.Waking.{v-Valid, v_value}
use os_td_minf.Kernel.Calls.{Call, p_call, perform, runs, allowed, takes, gives, boot}
use os_td_minf.Kernel.Safety.{Balanced, perform-Performs}
use os_td_minf.Kernel.Runs.{boot-Valid}

-- The holders after `units` of the lock went to thread t.
abbrev pub entered : ℕ → ℕ → List ℕ → List ℕ
entered zero t holders = holders
entered (suc k) t holders = t ∷ holders

-- A run in which only a thread that holds the lock releases it, and nobody else calls V of its
-- semaphore. A thread holds the lock from the return of Acquire, at once or when the thread is
-- resumed in P, to its call of Release.
pub data LockRun (initial_value : ℕ → ℕ) (lock : ℕ) : List ℕ → System → Type 0 where
  booted :
      (holders : List ℕ) (s : System)
      → holders ≡ []
      → s ≡ boot initial_value
      → LockRun initial_value lock holders s
  acquires :
      (before after : List ℕ) (s s' : System)
      → LockRun initial_value lock before s
      → runs s ≡ true
      → acquire lock s ≡ some s'
      → after ≡ entered (if is_outside (s'.point s.current) then 1 else 0) s.current before
      → LockRun initial_value lock after s'
  releases :
      (before after xs ys : List ℕ) (s s' : System)
      → LockRun initial_value lock before s
      → runs s ≡ true
      → before ≡ xs ++ (s.current ∷ ys)
      → after ≡ xs ++ ys
      → s' ≡ release lock s
      → LockRun initial_value lock after s'
  calls :
      (c : Call) (before after : List ℕ) (s s' : System)
      → LockRun initial_value lock before s
      → allowed c s ≡ true
      → gives lock c ≡ 0
      → perform c s ≡ some s'
      → after ≡ entered (takes lock c s s') s.current before
      → LockRun initial_value lock after s'

-- FREE or BUSY.
pub data LockState (lock : ℕ) (holders : List ℕ) (s : System) : Type 0 where
  free : (s.semaphores lock).value ≡ 1 → holders ≡ [] → LockState lock holders s
  busy : (t : ℕ) → (s.semaphores lock).value ≡ 0 → holders ≡ t ∷ [] → LockState lock holders s

cons_ne_nil : {t : ℕ} {ts : List ℕ} → t ∷ ts ≢ []
cons_ne_nil e = ground (arith, ap length e)

none_ne : {s : System} → none ≢ some s
none_ne e = ground (arith, e)

some_system : {a b : System} → some a ≡ some b → a ≡ b
some_system {a} e = ap (λ o. elim o [ none ↦ a | some s ↦ s ]) e

append_ne_nil : (xs : List ℕ) (t : ℕ) (ys : List ℕ) → xs ++ (t ∷ ys) ≢ []
append_ne_nil [] t ys e = cons_ne_nil e
append_ne_nil (x ∷ xs) t ys e = cons_ne_nil e

-- The only holder leaves.
leaves : (xs : List ℕ) (t u : ℕ) (ys : List ℕ) → xs ++ (t ∷ ys) ≡ u ∷ [] → xs ++ ys ≡ []
leaves [] t u ys e = ap tail e
leaves (x ∷ xs) t u ys e = absurd (append_ne_nil xs t ys (ap tail e))

moves :
    (lock k t : ℕ) (before after : List ℕ) (s s' : System)
    → LockState lock before s
    → Balanced (s'.semaphores lock).value k (s.semaphores lock).value 0
    → after ≡ entered k t before
    → LockState lock after s'
moves lock zero t before after s s' (free one nobody) units e =
    free (omega (arith, units.0, units.1, one)) (e ∙ nobody)
moves lock (suc k) t before after s s' (free one nobody) units e =
    busy t (omega (arith, units.0, one)) (e ∙ ap (λ hs. t ∷ hs) nobody)
moves lock zero t before after s s' (busy u none_left holder) units e =
    busy u (omega (arith, units.0, none_left)) (e ∙ holder)
moves lock (suc k) t before after s s' (busy u none_left holder) units e =
    absurd (omega (arith, units.0, none_left))

performed :
    (lock : ℕ) (c : Call) (s s' : System)
    → Valid s
    → allowed c s ≡ true
    → perform c s ≡ some s'
    → Valid s'
      × Balanced
          (s'.semaphores lock).value
          (takes lock c s s')
          (s.semaphores lock).value
          (gives lock c)
performed lock c s s' valid able done = elim (perform-Performs lock s c valid able) [
  | inl (k, done', valid', units) ↦
      subst
        (λ (z : System).
          Valid z
          × Balanced (z.semaphores lock).value (takes lock c s z) (s.semaphores lock).value
              (gives lock c))
        (some_system (sym done' ∙ done)) (valid', units)
  | inr (t, is, old, fails) ↦ absurd (none_ne (sym fails ∙ done))
]

acquired :
    (lock : ℕ) (s s' : System)
    → Valid s
    → runs s ≡ true
    → acquire lock s ≡ some s'
    → Valid s'
      × Balanced
          (s'.semaphores lock).value
          (if is_outside (s'.point s.current) then 1 else 0)
          (s.semaphores lock).value
          0
unfolding acquire perform allowed
acquired lock s s' valid able done =
    subst
      (λ b.
        Valid s'
        × Balanced (s'.semaphores lock).value
            (if b && is_outside (s'.point s.current) then 1 else 0) (s.semaphores lock).value 0)
      (==_refl lock) (performed lock (p_call lock) s s' valid able done)

released :
    (lock : ℕ) (s : System)
    → (s.semaphores lock).value ≡ 0
    → ((release lock s).semaphores lock).value ≡ 1
unfolding release
released lock s none_left =
    v_value lock s lock
    ∙ ap (λ b. if b then ((s.semaphores lock).value + 1) % 2 ^ 32 else (s.semaphores lock).value)
        (==_refl lock)
    ∙ ap (λ n. (n + 1) % 2 ^ 32) none_left

release-Valid : (lock : ℕ) (s : System) → Valid s → Valid (release lock s)
unfolding release
release-Valid lock s valid = v-Valid lock s valid

LockRun-LockState :
    (initial_value : ℕ → ℕ) (lock : ℕ)
    → initial_value lock ≡ 1
    → (holders : List ℕ) (s : System) → LockRun initial_value lock holders s
    → Valid s × LockState lock holders s
unfolding boot new_semaphore
LockRun-LockState initial_value lock one holders s (booted _ _ nobody start) =
    subst (λ (z : System). Valid z × LockState lock holders z) (sym start)
      (boot-Valid initial_value, free one nobody)
LockRun-LockState initial_value lock one holders s' (acquires before _ s _ run able done e) =
    let (valid, state) = LockRun-LockState initial_value lock one before s run in
    let (valid', units) = acquired lock s s' valid able done in
    (valid', moves lock _ s.current before holders s s' state units e)
LockRun-LockState initial_value lock one holders s'
      (releases before _ xs ys s _ run able was e is) =
    let (valid, state) = LockRun-LockState initial_value lock one before s run in
    subst (λ (z : System). Valid z × LockState lock holders z) (sym is)
      (release-Valid lock s valid, go state)
  where
    go : LockState lock before s → LockState lock holders (release lock s)
    go (free _ nobody) = absurd (append_ne_nil xs s.current ys (sym was ∙ nobody))
    go (busy u none_left holder) =
        free (released lock s none_left) (e ∙ leaves xs s.current u ys (sym was ∙ holder))
LockRun-LockState initial_value lock one holders s' (calls c before _ s _ run able no_unit done e) =
    let (valid, state) = LockRun-LockState initial_value lock one before s run in
    let (valid', units) = performed lock c s s' valid able done in
    (
      valid',
      moves lock _ s.current before holders s s' state
          (subst
            (λ n.
              Balanced (s'.semaphores lock).value (takes lock c s s') (s.semaphores lock).value n)
            no_unit units)
          e,
    )

-- A lock, whose semaphore starts at 1, in a run in which only a thread that holds it releases it:
-- whatever else threads and interrupt handlers call, the lock is free, with its semaphore at 1, or
-- one thread, and no other, holds it, with its semaphore at 0.
pub mutual_exclusion :
    (initial_value : ℕ → ℕ) (lock : ℕ) (holders : List ℕ) (s : System)
    → initial_value lock ≡ 1
    → LockRun initial_value lock holders s
    → LockState lock holders s
mutual_exclusion initial_value lock holders s one run =
    (LockRun-LockState initial_value lock one holders s run).1
