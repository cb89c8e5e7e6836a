-- ===== src/Kernel/Safety.antt =====
-- No call fails an ASSERT, but the second Start of a thread, and the system stays valid.
use os_td_minf.Prelude.{
  ℕ, ◌+◌, ◌%◌, ◌^◌, ◌≤◌, ◌≡◌, refl, sym, ap, subst, ◌∙◌, ◌⊎◌, inl, inr, Bool, true, false, not,
  ◌&&◌, none, some, arith, ◌==◌, if◌then◌else◌, Bool-cases,
}
use os_td_minf.Interrupt.Defs.{int_off, int_on}
use os_td_minf.Kernel.Defs.{
  ThreadStatus, just_created, running, ready, blocked, Point, outside, fresh, in_yield, in_p,
  finished, System, seek, v, finish_yield, setup_thread_state, start, halt, is_new,
}
use os_td_minf.Kernel.Queues.{is_finished, waits_on}
use os_td_minf.Kernel.Valid.{QueuesOf, own_share, Live, Valid, works, waits, seek-Switches}
use os_td_minf.Kernel.Waiting.{is_outside, in_p-MayTake, p_loop-Takes, p-Takes}
use os_td_minf.Kernel.Waking.{v-Valid, v_value}
use os_td_minf.Kernel.Switching.{
  Outside, set_level-Keeps, go_outside-Keeps, yield-Keeps, start-Keeps, finish-Keeps,
}
use os_td_minf.Kernel.Calls.{
  Call, p_call, v_call, start_call, level_call, yield_call, finish_call, halt_call, resume,
  resume_at, perform, runs, allowed, takes, gives,
}

-- The value of a semaphore and the units taken make up, up to wrap-around, what there was and the units
-- given; never more.
abbrev pub Balanced : ℕ → ℕ → ℕ → ℕ → Type 0
Balanced value taken initial given =
    (value + taken ≤ initial + given) × ((value + taken) % 2 ^ 32 ≡ (initial + given) % 2 ^ 32)

-- What one call does: it returns, and accounts for the units of semaphore j.
abbrev pub Performs : ℕ → Call → System → Type 0
Performs j c s =
    (s' : System) × (perform c s ≡ some s')
    × Valid s'
    × Balanced (s'.semaphores j).value (takes j c s s') (s.semaphores j).value (gives j c)

-- A call of Start for a thread that is not new fails its ASSERT.
abbrev pub StartsAgain : Call → System → Type 0
StartsAgain c s =
    (t : ℕ) × (c ≡ start_call t) × (is_new (s.status t) ≡ false) × (perform c s ≡ none)

pub balanced : {m n : ℕ} → m ≡ n → (m ≤ n) × (m % 2 ^ 32 ≡ n % 2 ^ 32)
balanced e = (omega (arith, e), ap (λ n. n % 2 ^ 32) e)

is_outside→outside : (p : Point) → is_outside p ≡ true → p ≡ outside
is_outside→outside outside h = refl
is_outside→outside fresh h = ground arith
is_outside→outside (in_yield old) h = ground arith
is_outside→outside (in_p i old) h = ground arith
is_outside→outside finished h = ground arith

is_new→just_created : (st : ThreadStatus) → is_new st ≡ true → st ≡ just_created
is_new→just_created just_created h = refl
is_new→just_created running h = ground arith
is_new→just_created ready h = ground arith
is_new→just_created blocked h = ground arith

both : (a b : Bool) → (a && b) ≡ true → (a ≡ true) × (b ≡ true)
both true b h = (refl, h)
both false b h = ground arith

not_lem : (b : Bool) → not b ≡ true → b ≡ false
not_lem true h = ground arith
not_lem false h = refl

pub runs-Outside : (s : System) → Valid s → runs s ≡ true → Outside s
runs-Outside s (works live q) h = record {
  live = live;
  queues = q;
  is_outside = is_outside→outside (s.point s.current) (both (not s.idling) _ h).1;
}
runs-Outside s (waits idle q) h =
    ground (arith, not_lem s.idling (both (not s.idling) _ h).0, idle.is_idling)

module _ (j : ℕ) (s : System) where
  unchanged :
      (s' : System)
      → s'.semaphores ≡ s.semaphores
      → (s'.semaphores j).value + 0 ≡ (s.semaphores j).value + 0
  unchanged s' e = ap (λ f. (f j).value + 0) e

  no_units : (b : Bool) → ◌≡◌ {A = ℕ} (if b then 0 else 0) 0
  no_units true = refl
  no_units false = refl

  -- What `resume` does for a thread at `pt`, or in the loop of Sleep.
  abbrev Resumes : Bool → Point → Type 0
  Resumes b pt =
      (s' : System) × ((if b then seek s else resume_at pt s) ≡ some s')
      × Valid s'
      × ((s'.semaphores j).value
            + (if not b && is_outside (s'.point s.current) then waits_on j pt else 0)
          ≡ (s.semaphores j).value + 0)

  resume-Resumes :
      Live s → QueuesOf (own_share s) s → (pt : Point) → s.point s.current ≡ pt → Resumes false pt
  unfolding setup_thread_state finish_yield
  resume-Resumes live q outside at =
      (s, refl, works live q, omega (arith, no_units (is_outside (s.point s.current))))
  resume-Resumes live q fresh at =
      let (s', done, valid, same) = go_outside-Keeps int_on s live q (λ i. ap (waits_on i) at) in
      (
        s',
        done,
        valid,
        omega (arith, no_units (is_outside (s'.point s.current)), unchanged s' same),
      )
  resume-Resumes live q (in_yield old) at =
      let (s', done, valid, same) = go_outside-Keeps old s live q (λ i. ap (waits_on i) at) in
      (
        s',
        done,
        valid,
        omega (arith, no_units (is_outside (s'.point s.current)), unchanged s' same),
      )
  resume-Resumes live q (in_p i old) at =
      let (s', done, valid, count) =
        p_loop-Takes i old s live q (in_p-MayTake i old s at) (masked_there live.masked) in
      (s', done, valid, units s' (count j))
    where
      masked_there : (s.point s.current ≡ outside) ⊎ (s.level ≡ int_off) → s.level ≡ int_off
      masked_there (inl e) = ground (arith, ap is_outside (sym at ∙ e))
      masked_there (inr off) = off

      units :
          (s' : System)
          → (s'.semaphores j).value + (if i == j && is_outside (s'.point s.current) then 1 else 0)
            ≡ (s.semaphores j).value
          → (s'.semaphores j).value
              + (if is_outside (s'.point s.current) then (if j == i then 1 else 0) else 0)
            ≡ (s.semaphores j).value + 0
      units s' e = ground (arith, e)
  resume-Resumes live q finished at = ground (arith, ap is_finished at, live.not_finished)

  pub perform-Performs :
      (c : Call) → Valid s → allowed c s ≡ true → Performs j c s ⊎ StartsAgain c s
  unfolding perform allowed halt start
  perform-Performs (p_call i) valid h =
      let here = runs-Outside s valid h in
      let (s', done, valid', count) = p-Takes i s here.live here.queues here.is_outside in
      inl (s', done, valid', balanced (omega (arith, count j)))
  perform-Performs (v_call i) valid h =
      inl (v i s, refl, v-Valid i s valid, ground (arith, v_value i s j))
  perform-Performs (start_call t) valid h = elim (Bool-cases (is_new (s.status t))) [
    | inl new ↦
        let (s', done, valid', same) =
          start-Keeps t s (runs-Outside s valid h) (is_new→just_created (s.status t) new) in
        inl (s', done, valid', balanced (unchanged s' same))
    | inr old ↦ inr (t, refl, old, simp old refl)
  ]
  perform-Performs (level_call now) valid h =
      let (s', done, valid', same) = set_level-Keeps now s (runs-Outside s valid h) in
      inl (s', done, valid', balanced (unchanged s' same))
  perform-Performs yield_call valid h =
      let (s', done, valid', same) = yield-Keeps s (runs-Outside s valid h) in
      inl (s', done, valid', balanced (unchanged s' same))
  perform-Performs finish_call valid h =
      let (s', done, valid', same) = finish-Keeps s (runs-Outside s valid h) in
      inl (s', done, valid', balanced (unchanged s' same))
  perform-Performs halt_call valid h =
      let here = runs-Outside s valid h in
      let live : Live (halt s) = record {
        awake = here.live.awake;
        is_running = here.live.is_running;
        not_finished = here.live.not_finished;
        nobody_doomed = here.live.nobody_doomed;
        masked = here.live.masked;
      } in
      inl (halt s, refl, works live here.queues, balanced refl)
  perform-Performs resume (works live q) h =
      let (s', done, valid', units) =
        subst (λ b. Resumes b (s.point s.current)) (sym live.awake)
          (resume-Resumes live q (s.point s.current) refl) in
      inl (s', done, valid', balanced units)
  perform-Performs resume (waits idle q) h =
      let (s', done, valid', same, same_point) = seek-Switches s idle.is_masked idle.doomed q in
      let (s₁, done₁, valid₁, units) =
        subst (λ b. Resumes b (s.point s.current)) (sym idle.is_idling)
          (s', done, valid', unchanged s' same) in
      inl (s₁, done₁, valid₁, balanced units)
