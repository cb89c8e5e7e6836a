-- ===== src/UserThread/Slots.antt =====
-- The slots of user threads and their stacks.
use os_td_minf.Prelude.{
  ℕ, zero, suc, ◌+◌, ◌<◌, ◌≡◌, refl, sym, ap, ◌∙◌, ◌≢◌, inl, inr, false, not, Option, none, some,
  List, [], ◌∷◌, arith, pos, ◌==◌, if◌then◌else◌, lt→ltb, ==_iff, Bool-cases, length, get_or, set,
  replicate, length-set, get_or-set_self, get_or-set_ne,
}
use os_td_minf.Bitmap.{BitMap, find}
use os_td_minf.Bitmap.Words.{IsValid, is_set}
use os_td_minf.Bitmap.Search.{Finds, full, taken, find-Finds}
use os_td_minf.UserThread.Defs.{UserThreads, max_threads, increment, decrement, do_thread_create}

abbrev pub thread_of : UserThreads → ℕ → ℕ
thread_of u i = get_or u.g_threads i 0

-- The number of user threads.
abbrev pub busy : List ℕ → ℕ
busy [] = 0
busy (zero ∷ ts) = busy ts
busy (suc t ∷ ts) = suc (busy ts)

busy-set_thread :
    (g : List ℕ) (i t : ℕ)
    → i < length g
    → get_or g i 0 ≡ 0
    → 0 < t
    → busy (set g i t) ≡ suc (busy g)
busy-set_thread [] i t lt e above = absurd (omega arith)
busy-set_thread (zero ∷ ts) zero (suc t) lt e above = refl
busy-set_thread (zero ∷ ts) zero zero lt e above = absurd (omega arith)
busy-set_thread (suc s ∷ ts) zero t lt e above = ground (arith, e)
busy-set_thread (zero ∷ ts) (suc i) t lt e above = busy-set_thread ts i t (omega arith) e above
busy-set_thread (suc s ∷ ts) (suc i) t lt e above =
    ap suc (busy-set_thread ts i t (omega arith) e above)

pub busy-set_zero :
    (g : List ℕ) (i : ℕ) → i < length g → 0 < get_or g i 0 → suc (busy (set g i 0)) ≡ busy g
busy-set_zero [] i lt above = absurd (omega arith)
busy-set_zero (zero ∷ ts) zero lt above = ground (arith, above)
busy-set_zero (suc s ∷ ts) zero lt above = refl
busy-set_zero (zero ∷ ts) (suc i) lt above = busy-set_zero ts i (omega arith) above
busy-set_zero (suc s ∷ ts) (suc i) lt above = ap suc (busy-set_zero ts i (omega arith) above)

-- A slot is taken in the map when it has a thread, no thread has two slots, and the counter is one
-- less than the number of threads: `others` is 1 until the main thread has exited, and then 0.
pub record Slots (others : ℕ) (u : UserThreads) : Type 0 where
  pub valid : IsValid u.stack_map
  pub size : u.stack_map.num_bits ≡ max_threads
  pub table : length u.g_threads ≡ max_threads
  pub agree : (i : ℕ) → i < max_threads → is_set u.stack_map i ≡ not (thread_of u i == 0)
  pub once :
      (i j : ℕ)
      → i < max_threads
      → j < max_threads
      → thread_of u i ≡ thread_of u j
      → 0 < thread_of u i
      → i ≡ j
  pub counter : u.g_threads_idx ≡ decrement (pos (busy u.g_threads + others))

-- What ThreadCreate of the thread t does.
pub data Creates (others t : ℕ) (u : UserThreads) (r : Option (Option ℕ × UserThreads))
    : Type 0 where
  refuses :
      r ≡ some (none, u) → ((i : ℕ) → i < max_threads → 0 < thread_of u i) → Creates others t u r
  starts :
      (i : ℕ) (u' : UserThreads)
      → r ≡ some (some i, u')
      → i < max_threads
      → thread_of u i ≡ 0
      → u'.g_threads ≡ set u.g_threads i t
      → Slots others u'
      → Creates others t u r

increment-decrement : (n : ℕ) → increment (decrement (pos n)) ≡ decrement (pos (suc n))
increment-decrement zero = refl
increment-decrement (suc n) = refl

pub entry_lem :
    (g : List ℕ) (i t : ℕ)
    → i < length g
    → (j : ℕ) → get_or (set g i t) j 0 ≡ (if i == j then t else get_or g j 0)
entry_lem g i t lt j = elim (Bool-cases (i == j)) [
  | inl here ↦
      simp here
        (ap (λ k. get_or (set g i t) k 0) (sym ((==_iff i j).0 here)) ∙ get_or-set_self g i t 0 lt)
  | inr there ↦ simp there (get_or-set_ne g t 0 (λ e. ground (arith, there, e, ==_iff i j)))
]

-- ThreadCreate, of a thread that is not in the table: it refuses with -1, changing nothing, exactly
-- when all ten slots have threads, and otherwise gives the thread a slot that has none.
pub do_thread_create-Creates :
    (others t : ℕ) (u : UserThreads)
    → Slots others u
    → 0 < t
    → ((i : ℕ) → i < max_threads → thread_of u i ≢ t)
    → Creates others t u (do_thread_create t u)
unfolding do_thread_create
do_thread_create-Creates others t u slots above new = go (find-Finds u.stack_map slots.valid)
  where
    go : Finds u.stack_map (find u.stack_map) → Creates others t u (do_thread_create t u)
    go (full e all) =
        refuses (rw e refl)
          (λ i lt. ground (arith, slots.agree i lt, all i (omega (arith, lt, slots.size))))
    go (taken i b e lt is_free _ updated) =
        let inside : i < max_threads = omega (arith, lt, slots.size) in
        let free : thread_of u i ≡ 0 = ground (arith, slots.agree i inside, is_free) in
        let u' : UserThreads = record {
          g_threads = set u.g_threads i t;
          stack_map = b;
          g_threads_idx = increment u.g_threads_idx;
        } in
        let grows =
          busy-set_thread u.g_threads i t (omega (arith, inside, slots.table)) free above in
        let more : suc (busy u.g_threads + others) ≡ busy (set u.g_threads i t) + others =
          omega (arith, grows) in
        let entry = entry_lem u.g_threads i t (omega (arith, inside, slots.table)) in
        starts i u' (rw (e, lt→ltb i max_threads inside) refl) inside free refl record {
          valid = updated.valid;
          size = updated.same_size ∙ slots.size;
          table = length-set u.g_threads i t ∙ slots.table;
          agree = λ j low. ground (arith, updated.bits j, entry j, slots.agree j low, above);
          once = λ j k lj lk e some_thread. elim (Bool-cases (i == j)) [
            | inl here ↦ elim (Bool-cases (i == k)) [
              | inl there ↦ ground (arith, here, there)
              | inr there ↦ absurd (new k lk (ground (arith, here, there, e, entry j, entry k)))
            ]
            | inr here ↦ elim (Bool-cases (i == k)) [
              | inl there ↦ absurd (new j lj (ground (arith, here, there, e, entry j, entry k)))
              | inr there ↦
                  slots.once j k lj lk (ground (arith, here, there, e, entry j, entry k))
                    (ground (arith, here, some_thread, entry j))
            ]
          ];
          counter =
              ap increment slots.counter
              ∙ increment-decrement (busy u.g_threads + others)
              ∙ ap (λ n. decrement (pos n)) more;
        }

pub get_or-replicate : (n i : ℕ) → ◌≡◌ {A = ℕ} (get_or (replicate n 0) i 0) 0
get_or-replicate zero i = refl
get_or-replicate (suc n) zero = refl
get_or-replicate (suc n) (suc i) = get_or-replicate n i

busy-replicate : (n : ℕ) → busy (replicate n 0) ≡ 0
busy-replicate zero = refl
busy-replicate (suc n) = busy-replicate n

-- At the start, before any ThreadCreate.
pub initial-Slots :
    (b : BitMap)
    → IsValid b
    → b.num_bits ≡ max_threads
    → ((i : ℕ) → i < max_threads → is_set b i ≡ false)
    → Slots 1 (record { g_threads = replicate max_threads 0; stack_map = b; g_threads_idx = pos 0 })
initial-Slots b valid size cleared = record {
  valid = valid;
  size = size;
  table = refl;
  agree = λ i lt. ground (arith, cleared i lt, get_or-replicate max_threads i);
  once = λ i j li lj e above. ground (arith, above, get_or-replicate max_threads i);
  counter = refl;
}
