-- ===== src/UserThread/Exit.antt =====
-- ThreadExit, and when Nachos halts.
use os_td_minf.Prelude.{
  ℕ, zero, suc, ◌+◌, ◌≤◌, ◌<◌, ◌≡◌, refl, ap, ◌∙◌, ◌≢◌, inl, inr, Bool, false, Option, some, List,
  [], ◌∷◌, arith, ℤ, pos, negsuc, ◌==◌, lt→ltb, ==_iff, Bool-cases, length, get_elem?, get_or, set,
  length-set,
}
use os_td_minf.Bitmap.Words.{clear-Updated}
use os_td_minf.UserThread.Defs.{
  UserThreads, max_threads, decrement, is_negative, stack_id_loop, get_stack_id_from_thread,
  do_thread_exit,
}
use os_td_minf.UserThread.Slots.{Slots, thread_of, busy, busy-set_zero, entry_lem}

get_elem?_or : (g : List ℕ) (i : ℕ) → i < length g → get_elem? g i ≡ some (get_or g i 0)
get_elem?_or [] i lt = absurd (omega arith)
get_elem?_or (t ∷ ts) zero lt = refl
get_elem?_or (t ∷ ts) (suc i) lt = get_elem?_or ts i (omega arith)

-- The slot of a thread, or -1.
data Locates (g : List ℕ) (t k i : ℕ) (r : Option ℤ) : Type 0 where
  absent :
      r ≡ some (negsuc 0) → ((j : ℕ) → i ≤ j → j < i + k → get_or g j 0 ≢ t) → Locates g t k i r
  present : (j : ℕ) → r ≡ some (pos j) → i ≤ j → j < i + k → get_or g j 0 ≡ t → Locates g t k i r

stack_id_loop-Locates :
    (k i : ℕ) (g : List ℕ) (t : ℕ) → i + k ≤ length g → Locates g t k i (stack_id_loop k i g t)
unfolding stack_id_loop
stack_id_loop-Locates zero i g t fits =
    absent refl (λ j low high. absurd (omega (arith, low, high)))
stack_id_loop-Locates (suc k) i g t fits =
    let at = get_elem?_or g i (omega arith) in
    elim (Bool-cases (get_or g i 0 == t)) [
      | inl here ↦
          simp (at, here)
            (present i refl (omega arith) (omega arith) ((==_iff (get_or g i 0) t).0 here))
      | inr there ↦
          simp (at, there) (further (stack_id_loop-Locates k (i + 1) g t (omega arith)) there)
    ]
  where
    further :
        Locates g t k (i + 1) (stack_id_loop k (i + 1) g t)
        → (get_or g i 0 == t) ≡ false
        → Locates g t (suc k) i (stack_id_loop k (i + 1) g t)
    further (absent e none_here) there = absent e (λ j low high. elim (Bool-cases (i == j)) [
      | inl same ↦ λ f.
          ground
            (arith, there, ap (get_or g i) refl, f, ap (λ m. get_or g m 0) ((==_iff i j).0 same))
      | inr other ↦ none_here j (ground (arith, low, other)) (omega (arith, high))
    ])
    further (present j e low high is) there =
        present j e (omega (arith, low)) (omega (arith, high)) is

-- What ThreadExit of the thread t does.
pub data Exits (others t : ℕ) (u : UserThreads) (r : Option (Bool × UserThreads)) : Type 0 where
  user_exits :
      (i : ℕ) (u' : UserThreads)
      → r ≡ some (busy u'.g_threads + others == 0, u')
      → thread_of u i ≡ t
      → u'.g_threads ≡ set u.g_threads i 0
      → Slots others u'
      → Exits others t u r
  main_exits :
      (u' : UserThreads)
      → r ≡ some (busy u.g_threads == 0, u')
      → ((i : ℕ) → i < max_threads → thread_of u i ≢ t)
      → u'.g_threads ≡ u.g_threads
      → Slots 0 u'
      → Exits others t u r

is_negative_lem : (n : ℕ) → is_negative (decrement (pos n)) ≡ (n == 0)
is_negative_lem zero = refl
is_negative_lem (suc n) = ground arith

-- ThreadExit of a user thread, or of the main thread while it has not exited: the thread's slot is
-- free again, the others keep theirs, and Nachos halts exactly when no thread is left.
pub do_thread_exit-Exits :
    (others t : ℕ) (u : UserThreads)
    → Slots others u
    → 0 < t
    → (((i : ℕ) → i < max_threads → thread_of u i ≢ t) → others ≡ 1)
    → Exits others t u (do_thread_exit t u)
unfolding do_thread_exit get_stack_id_from_thread
do_thread_exit-Exits others t u slots above is_main =
    go (stack_id_loop-Locates max_threads 0 u.g_threads t (omega (arith, slots.table)))
  where
    go :
        Locates u.g_threads t max_threads 0 (stack_id_loop max_threads 0 u.g_threads t)
        → Exits others t u (do_thread_exit t u)
    go (absent e nowhere) =
        let main = is_main (λ i lt. nowhere i (omega arith) (omega (arith, lt))) in
        let all : busy u.g_threads + others ≡ suc (busy u.g_threads) = omega (arith, main) in
        let rest : busy u.g_threads ≡ busy u.g_threads + 0 = omega arith in
        let down : decrement u.g_threads_idx ≡ decrement (pos (busy u.g_threads)) =
          ap decrement (slots.counter ∙ ap (λ n. decrement (pos n)) all) in
        let left = ap is_negative down ∙ is_negative_lem (busy u.g_threads) in
        main_exits (record u { g_threads_idx = decrement u.g_threads_idx })
          (rw e (ap (λ b. some (b, record u { g_threads_idx = decrement u.g_threads_idx })) left))
          (λ i lt. nowhere i (omega arith) (omega (arith, lt))) refl
          record {
            valid = slots.valid;
            size = slots.size;
            table = slots.table;
            agree = slots.agree;
            once = slots.once;
            counter = down ∙ ap (λ n. decrement (pos n)) rest;
          }
    go (present i e _ high is) =
        let inside : i < max_threads = omega (arith, high) in
        let held : 0 < thread_of u i = ground (arith, is, above) in
        let (b, done, updated) =
          clear-Updated u.stack_map i slots.valid (omega (arith, inside, slots.size)) in
        let entry = entry_lem u.g_threads i 0 (omega (arith, inside, slots.table)) in
        let fewer = busy-set_zero u.g_threads i (omega (arith, inside, slots.table)) held in
        let all : busy u.g_threads + others ≡ suc (busy (set u.g_threads i 0) + others) =
          omega (arith, fewer) in
        let down : decrement u.g_threads_idx
            ≡ decrement (pos (busy (set u.g_threads i 0) + others)) =
          ap decrement (slots.counter ∙ ap (λ n. decrement (pos n)) all) in
        let u' : UserThreads = record {
          g_threads = set u.g_threads i 0;
          stack_map = b;
          g_threads_idx = decrement u.g_threads_idx;
        } in
        let left = ap is_negative down ∙ is_negative_lem (busy (set u.g_threads i 0) + others) in
        user_exits i u' (rw (e, lt→ltb i max_threads inside, done) (ap (λ x. some (x, u')) left)) is
          refl
          record {
            valid = updated.valid;
            size = updated.same_size ∙ slots.size;
            table = length-set u.g_threads i 0 ∙ slots.table;
            agree = λ j low. ground (arith, updated.bits j, entry j, slots.agree j low);
            once = λ j k lj lk same some_thread.
                slots.once j k lj lk (ground (arith, same, some_thread, entry j, entry k))
                  (ground (arith, some_thread, entry j));
            counter = down;
          }
