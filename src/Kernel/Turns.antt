-- ===== src/Kernel/Turns.antt =====
-- Threads that yield in turn: each ready thread gets the processor.
use os_td_minf.Prelude.{
  ℕ, zero, suc, ◌≡◌, refl, sym, ap, subst, ◌∙◌, ◌≢◌, Bool, true, false, Option, none, some, List,
  [], ◌∷◌, ◌++◌, arith, if◌then◌else◌, ◌>>=◌, length,
}
use os_td_minf.Machine.{update}
use os_td_minf.Interrupt.Defs.{IntStatus, int_off, int_on}
use os_td_minf.Kernel.Defs.{
  running, ready, Point, outside, fresh, in_yield, in_p, finished, System, run, find_next_to_run,
  first_of, destroy_carcass, ready_to_run, set_level, set_point, yield, finish_yield,
  setup_thread_state,
}
use os_td_minf.Kernel.Threads.{AllIn, Fresh, NoDup, AllIn-map_but}
use os_td_minf.Kernel.Queues.{Queues, waits_on, update_self, update_ne, running-Fresh}
use os_td_minf.Kernel.Valid.{own_share, Valid, works, waits, Keeps}
use os_td_minf.Kernel.Waiting.{is_outside}
use os_td_minf.Kernel.Switching.{Outside, go_outside-Keeps, yield-Keeps}
use os_td_minf.Kernel.Calls.{yield_call, resume, resume_at, perform}
use os_td_minf.Kernel.Safety.{runs-Outside}

-- The thread that runs yields, and the next one goes on in its own code.
unfoldable pub turn : System → Option System
turn s = do s' ← perform yield_call s; perform resume s'

unfoldable pub turns : ℕ → System → Option System
turns zero s = some s
turns (suc n) s = do s' ← turn s; turns n s'

-- Threads that go on in their own code when they run: new ones and those in Yield.
abbrev pub goes_on : Point → Bool
goes_on outside = false
goes_on fresh = true
goes_on (in_yield old) = true
goes_on (in_p i old) = false
goes_on finished = false

record Turned (s : System) (t : ℕ) (ts : List ℕ) (s' : System) : Type 0 where
  here : Outside s'
  is_current : s'.current ≡ t
  rotated : s'.ready_list ≡ ts ++ (s.current ∷ [])
  same_halted : s'.halted ≡ s.halted
  others : (u : ℕ) → s.current ≢ u → t ≢ u → s'.point u ≡ s.point u

some-inj : {A : Type 0} {x y : A} → some x ≡ some y → x ≡ y
some-inj {x = x} e = ap (λ o. elim o [ none ↦ x | some z ↦ z ]) e

Keeps-Valid : (s s' : System) → Keeps s (some s') → Valid s'
Keeps-Valid s s' (r, done, valid, same) = subst Valid (sym (some-inj done)) valid

module _ (s : System) (t : ℕ) (ts : List ℕ) where
  abbrev yielded : System
  yielded = record s {
    current = t;
    idling = false;
    level = int_off;
    ready_list = ts ++ (s.current ∷ []);
    status = update (update s.status s.current ready) t running;
    point = update s.point s.current (in_yield s.level);
  }

  yield_lem :
      s.halted ≡ false → s.ready_list ≡ t ∷ ts → s.to_be_destroyed ≡ none → yield s ≡ some yielded
  unfolding yield find_next_to_run ready_to_run run
  yield_lem going list nobody =
      ap (λ b. next (if b then (none, masked) else first_of s.ready_list masked)) going
      ∙ ap (λ l. next (first_of l masked)) list
      ∙ ap (λ o. destroy_carcass o yielded) nobody
    where
      masked : System
      masked = set_level int_off s

      next : Option ℕ × System → Option System
      next r = elim r.0 [
        | none ↦ some (set_level s.level r.1)
        | some u ↦ run u (ready_to_run s.current (set_point s.current (in_yield s.level) r.1))
      ]

  -- Where the thread goes on, at the level `now`.
  abbrev gone_on : IntStatus → System
  gone_on now = set_level now (set_point t outside yielded)

  resume_lem :
      s.current ≢ t
      → goes_on (s.point t) ≡ true
      → (now : IntStatus) × (perform resume yielded ≡ some (gone_on now))
  unfolding perform setup_thread_state finish_yield
  resume_lem ne goes =
      at (update s.point s.current (in_yield s.level) t)
        (ap goes_on (update_ne s.point (in_yield s.level) ne) ∙ goes)
    where
      at :
          (pt : Point)
          → goes_on pt ≡ true
          → (now : IntStatus) × (resume_at pt yielded ≡ some (gone_on now))
      at outside g = ground arith
      at fresh g = (int_on, refl)
      at (in_yield old) g = (old, refl)
      at (in_p i old) g = ground arith
      at finished g = ground arith

  none_due : (pt : Point) → goes_on pt ≡ true → (i : ℕ) → waits_on i pt ≡ 0
  none_due outside g i = refl
  none_due fresh g i = refl
  none_due (in_yield old) g i = refl
  none_due (in_p j old) g i = ground arith
  none_due finished g i = refl

  gone_on-Outside :
      (now : IntStatus)
      → s.current ≢ t
      → goes_on (s.point t) ≡ true
      → Valid yielded
      → Outside (gone_on now)
  gone_on-Outside now ne goes (waits idle q) = ground (arith, idle.is_idling)
  gone_on-Outside now ne goes (works live q) =
      let same = update_ne s.point (in_yield s.level) ne in
      let due = none_due (update s.point s.current (in_yield s.level) t) (ap goes_on same ∙ goes) in
      runs-Outside (gone_on now)
        (Keeps-Valid yielded (gone_on now) (go_outside-Keeps now yielded live q due))
        (ap is_outside (update_self (update s.point s.current (in_yield s.level)) t outside))

  turn_lem :
      Outside s
      → s.halted ≡ false
      → s.ready_list ≡ t ∷ ts
      → goes_on (s.point t) ≡ true
      → (s' : System) × (turn s ≡ some s') × Turned s t ts s'
  unfolding turn perform
  turn_lem here going list goes =
      let q : Queues (own_share s) (t ∷ ts) s.status s.point s.semaphores =
        subst (λ us. Queues (own_share s) us s.status s.point s.semaphores) list here.queues in
      let out = running-Fresh q s.current here.live.is_running in
      let ne : s.current ≢ t = out.0.0 in
      let yields = yield_lem going list here.live.nobody_doomed in
      let valid = Keeps-Valid s yielded (subst (Keeps s) yields (yield-Keeps s here)) in
      let (now, resumes) = resume_lem ne goes in
      let turned : Turned s t ts (gone_on now) = record {
        here = gone_on-Outside now ne goes valid;
        is_current = refl;
        rotated = refl;
        same_halted = refl;
        others = λ u ne_s ne_t.
            update_ne (update s.point s.current (in_yield s.level)) outside ne_t
            ∙ update_ne s.point (in_yield s.level) ne_s;
      } in
      (gone_on now, rw yields resumes, turned)

-- Whether the threads of the list go on.
abbrev pub AllGoOn : (ℕ → Point) → List ℕ → Type 0
AllGoOn point ts = AllIn (λ u. goes_on (point u) ≡ true) ts

append-append : (us vs ws : List ℕ) → (us ++ vs) ++ ws ≡ us ++ (vs ++ ws)
append-append [] vs ws = refl
append-append (u ∷ us) vs ws = ap (λ ts. u ∷ ts) (append-append us vs ws)

-- What holds of a list holds of its part up to t.
ahead :
    (P : ℕ → Type 0) (us : List ℕ) (t : ℕ) (vs : List ℕ)
    → AllIn P (us ++ (t ∷ vs))
    → AllIn P (us ++ (t ∷ []))
ahead P [] t vs h = (h.0, tt)
ahead P (u ∷ us) t vs h = (h.0, ahead P us t vs h.1)

pub turns_lem :
    (us : List ℕ) (t : ℕ) (vs : List ℕ) (s : System)
    → Outside s
    → s.halted ≡ false
    → s.ready_list ≡ us ++ (t ∷ vs)
    → AllGoOn s.point (us ++ (t ∷ []))
    → (s' : System) × (turns (suc (length us)) s ≡ some s') × Outside s' × (s'.current ≡ t)
unfolding turns
turns_lem [] t vs s here going list goes =
    let (s', done, turned) = turn_lem s t vs here going list goes.0 in
    (s', rw done refl, turned.here, turned.is_current)
turns_lem (u ∷ us) t vs s here going list goes =
    let (s₁, done, turned) = turn_lem s u (us ++ (t ∷ vs)) here going list goes.0 in
    let once = (subst NoDup list here.queues.ready_once).0 in
    let out =
      (subst (Fresh s.current) list
        (running-Fresh here.queues s.current here.live.is_running).0).1 in
    let go_on : AllGoOn s₁.point (us ++ (t ∷ [])) =
      AllIn-map_but _ _ s.current (us ++ (t ∷ [])) (ahead (λ v. s.current ≢ v) us t vs out)
        (λ v ne_s h. ap goes_on (turned.others v ne_s h.0) ∙ h.1)
        (AllIn-map_but _ (λ v. (u ≢ v) × (goes_on (s.point v) ≡ true)) u (us ++ (t ∷ []))
          (ahead (λ v. u ≢ v) us t vs once) (λ v ne_u h. (ne_u, h)) goes.1) in
    let (s₂, done', here', is_current) =
      turns_lem us t (vs ++ (s.current ∷ [])) s₁ turned.here (turned.same_halted ∙ going)
        (turned.rotated ∙ append-append us (t ∷ vs) (s.current ∷ [])) go_on in
    (s₂, rw done done', here', is_current)
