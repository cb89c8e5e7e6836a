-- ===== src/Kernel/Runs.antt =====
-- Runs of the kernel: they return, or fail in the second Start of a thread.
use os_td_minf.Prelude.{
  ℕ, ◌+◌, ◌≡◌, refl, ap, subst, inl, inr, true, false, Option, none, some, List, [], ◌∷◌, ◌++◌,
  arith, Bool-cases,
}
use os_td_minf.Kernel.Defs.{System, new_semaphore, is_new}
use os_td_minf.Kernel.Valid.{Valid, works}
use os_td_minf.Kernel.Calls.{
  Call, start_call, runs, allowed, takes, gives, Run, counted, step, run_calls, boot,
}
use os_td_minf.Kernel.Safety.{Balanced, balanced, perform-Performs}

-- A run so far: a valid system, and every unit of semaphore j accounted for.
abbrev pub Sound : ℕ → ℕ → Run → Type 0
Sound initial j r = Valid r.system × Balanced (r.system.semaphores j).value r.taken initial r.given

-- What the calls `cs` from `origin` on come to: all return, or one of them is Start of a thread that is
-- not new, and fails.
pub data Goes (initial j : ℕ) (origin : Run) (cs : List Call) (result : Option Run) : Type 0 where
  all_return : (r : Run) → result ≡ some r → Sound initial j r → Goes initial j origin cs result
  starts_again :
      (before : List Call) (t : ℕ) (after : List Call) (r : Run)
      → cs ≡ before ++ (start_call t ∷ after)
      → run_calls j before origin ≡ some r
      → Sound initial j r
      → runs r.system ≡ true
      → is_new (r.system.status t) ≡ false
      → result ≡ none
      → Goes initial j origin cs result

-- One call goes on, or fails in Start.
data Steps (initial j : ℕ) (c : Call) (r : Run) (result : Option Run) : Type 0 where
  stepped : (r' : Run) → result ≡ some r' → Sound initial j r' → Steps initial j c r result
  failed :
      (t : ℕ)
      → c ≡ start_call t
      → runs r.system ≡ true
      → is_new (r.system.status t) ≡ false
      → result ≡ none
      → Steps initial j c r result

start_runs : (c : Call) (t : ℕ) (s : System) → c ≡ start_call t → allowed c s ≡ true → runs s ≡ true
unfolding allowed
start_runs c t s is able = subst (λ d. allowed d s ≡ true) is able

step-Steps :
    (initial j : ℕ) (c : Call) (r : Run) → Sound initial j r → Steps initial j c r (step j c r)
unfolding step
step-Steps initial j c r (valid, account) = elim (Bool-cases (allowed c r.system)) [
  | inl able ↦ elim (perform-Performs j r.system c valid able) [
    | inl (s', done, valid', units) ↦
        let r' : Run = record {
          system = s';
          taken = r.taken + takes j c r.system s';
          given = r.given + gives j c;
        } in
        stepped r' (simp (able, ap (counted j c r) done) refl)
          (valid', (omega (arith, units.0, account.0), omega (arith, units.1, account.1)))
    | inr (t, is, old, fails) ↦
        failed t is (start_runs c t r.system is able) old
          (simp (able, ap (counted j c r) fails) refl)
  ]
  | inr unable ↦ stepped r (simp unable refl) (valid, account)
]

pub run_calls-Goes :
    (initial j : ℕ) (cs : List Call) (r : Run)
    → Sound initial j r
    → Goes initial j r cs (run_calls j cs r)
unfolding run_calls
run_calls-Goes initial j [] r sound = all_return r refl sound
run_calls-Goes initial j (c ∷ cs) r sound =
    first (run_calls-Goes initial j cs) (step-Steps initial j c r sound)
  where
    go_on :
        (r₁ : Run)
        → step j c r ≡ some r₁
        → Goes initial j r₁ cs (run_calls j cs r₁)
        → Goes initial j r (c ∷ cs) (run_calls j (c ∷ cs) r)
    go_on r₁ done (all_return r₂ q sound₂) = all_return r₂ (rw done q) sound₂
    go_on r₁ done (starts_again before t after r₂ is q sound₂ able old fails) =
        starts_again (c ∷ before) t after r₂ (ap (λ ds. c ∷ ds) is) (rw done q) sound₂ able old
          (rw done fails)

    first :
        ((r₁ : Run) → Sound initial j r₁ → Goes initial j r₁ cs (run_calls j cs r₁))
        → Steps initial j c r (step j c r)
        → Goes initial j r (c ∷ cs) (run_calls j (c ∷ cs) r)
    first rest (stepped r₁ done sound₁) = go_on r₁ done (rest r₁ sound₁)
    first rest (failed t is able old fails) =
        starts_again [] t cs r (ap (λ d. d ∷ cs) is) refl sound able old (rw fails refl)

pub boot-Valid : (initial_value : ℕ → ℕ) → Valid (boot initial_value)
unfolding boot new_semaphore
boot-Valid initial_value =
    works
      record {
        awake = refl;
        is_running = refl;
        not_finished = refl;
        nobody_doomed = refl;
        masked = inl refl;
      }
      record {
        all_ready = tt;
        ready_once = tt;
        all_wait = λ i. tt;
        wait_once = λ i. tt;
        none_lost = λ i. inl refl;
      }

abbrev pub started : (ℕ → ℕ) → Run
started initial_value = record { system = boot initial_value; taken = 0; given = 0 }

pub started-Sound :
    (initial_value : ℕ → ℕ) (j : ℕ) → Sound (initial_value j) j (started initial_value)
unfolding boot new_semaphore
started-Sound initial_value j = (boot-Valid initial_value, balanced refl)
