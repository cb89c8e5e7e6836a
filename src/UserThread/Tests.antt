-- ===== src/UserThread/Tests.antt =====
-- The first threads of a user program, and the properties at them.
use os_td_minf.Prelude.{
  ℕ, ◌+◌, ◌-◌, ◌*◌, ◌≤◌, ◌<◌, ◌≡◌, refl, sym, ap, subst, ◌∙◌, Bool, false, Option, none, some, List,
  [], ◌∷◌, arith, pos, ◌>>=◌, replicate,
}
use os_td_minf.Machine.{page_size}
use os_td_minf.Bitmap.{BitMap, create, clear_loop, find, find_loop, test, mark, clear, div_round_up}
use os_td_minf.Bitmap.Words.{IsValid, is_set}
use os_td_minf.Bitmap.Search.{create-Cleared}
use os_td_minf.UserThread.Defs.{
  UserThreads, user_thread_stack_size, do_thread_create, do_thread_exit, stack_address,
  get_stack_id_from_thread, stack_id_loop,
}
use os_td_minf.UserThread.Exit.{Exits, do_thread_exit-Exits}
use os_td_minf.UserThread.Stacks.{stack_address_lem}
use os_td_minf.UserThread.Slots.{
  Slots, Creates, do_thread_create-Creates, initial-Slots, get_or-replicate,
}

abbrev empty_map : BitMap
empty_map = record { num_bits = 10; num_words = 1; map = 0 ∷ [] }

empty_map-IsValid : IsValid empty_map
empty_map-IsValid = omega arith

some-inj : {A : Type 0} {x y : A} → some x ≡ some y → x ≡ y
some-inj {x = x} e = ap (λ o. elim o [ none ↦ x | some z ↦ z ]) e

create_runs : create 10 (7 ∷ []) ≡ some empty_map
unfolding create clear clear_loop div_round_up
create_runs = refl

empty_map_lem : (j : ℕ) → j < 10 → is_set empty_map j ≡ false
unfolding div_round_up
empty_map_lem =
    let (b, done, valid, size, cleared) = create-Cleared 10 (7 ∷ []) refl in
    subst (λ c. (j : ℕ) → j < 10 → is_set c j ≡ false) (some-inj (sym done ∙ create_runs)) cleared

abbrev started : UserThreads
started = record { g_threads = replicate 10 0; stack_map = empty_map; g_threads_idx = pos 0 }

started-Slots : Slots 1 started
started-Slots = initial-Slots empty_map empty_map-IsValid refl empty_map_lem

abbrev after_two : Option UserThreads
after_two = do
  (slot, u) ← do_thread_create 500 started
  (slot', u') ← do_thread_create 600 u
  some u'

-- Of two threads the first one exits; the main thread, which exits next, does not halt Nachos.
abbrev after_exits : Option (Bool × List ℕ)
after_exits = do
  u ← after_two
  (halts, u') ← do_thread_exit 500 u
  (halts', u'') ← do_thread_exit 100 u'
  some (halts', u''.g_threads)

exits_run : after_exits ≡ some (false, 0 ∷ 600 ∷ replicate 8 0)
unfolding do_thread_create do_thread_exit get_stack_id_from_thread stack_id_loop find find_loop test
    mark clear
exits_run = refl

do_thread_create-Creates_example : Creates 1 500 started (do_thread_create 500 started)
do_thread_create-Creates_example =
    do_thread_create-Creates 1 500 started started-Slots (omega arith)
      (λ i lt e. ground (arith, e, get_or-replicate 10 i))

do_thread_exit-Exits_example : Exits 1 100 started (do_thread_exit 100 started)
do_thread_exit-Exits_example =
    do_thread_exit-Exits 1 100 started started-Slots (omega arith) (λ absent. refl)

stack_address_lem_example :
    (stack_address 34 3 + user_thread_stack_size ≤ stack_address 34 2)
    × (stack_address 34 2 + user_thread_stack_size + 16 ≤ 34 * page_size - 16)
    × (34 * page_size - 4096 ≤ stack_address 34 3 - user_thread_stack_size)
stack_address_lem_example =
    stack_address_lem 34 2 3 (omega arith) (omega arith) (omega arith) (omega arith)
