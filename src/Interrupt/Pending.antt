-- ===== src/Interrupt/Pending.antt =====
-- The sorted sequence of pending interrupts of code/machine/interrupt.cc.
use os_td_minf.Prelude.{
  ℕ, ◌+◌, ◌≤◌, ◌<◌, ◌≡◌, refl, ap₂, inl, inr, List, [], ◌∷◌, arith, pos, ltb, leb, if◌then◌else◌,
  Bool-cases, length,
}
use os_td_minf.LinkedList.Defs.{lt_key}
use os_td_minf.LinkedList.Chain.{Node}
use os_td_minf.LinkedList.Walk.{insert as insert_node}
use os_td_minf.Interrupt.Defs.{PendingInterrupt, insert}

-- None is earlier than `t`.
abbrev pub AllFrom : ℕ → List PendingInterrupt → Type 0
AllFrom t [] = Unit
AllFrom t (p ∷ ps) = (t ≤ p.when) × AllFrom t ps

abbrev pub Sorted : List PendingInterrupt → Type 0
Sorted [] = Unit
Sorted (p ∷ ps) = AllFrom p.when ps × Sorted ps

-- How many are due at the time `now`.
abbrev pub due : ℕ → List PendingInterrupt → ℕ
due now [] = 0
due now (p ∷ ps) = (if leb p.when now then 1 else 0) + due now ps

AllFrom-le : (a b : ℕ) (ps : List PendingInterrupt) → a ≤ b → AllFrom b ps → AllFrom a ps
AllFrom-le a b [] h all = tt
AllFrom-le a b (p ∷ ps) h (l, all) = (omega arith, AllFrom-le a b ps h all)

AllFrom-insert :
    (t : ℕ) (p : PendingInterrupt) (ps : List PendingInterrupt)
    → t ≤ p.when
    → AllFrom t ps
    → AllFrom t (insert p ps)
AllFrom-insert t p [] h all = (h, tt)
AllFrom-insert t p (q ∷ qs) h (l, all) = elim (Bool-cases (ltb p.when q.when)) [
  | inl e ↦ simp e (h, (l, all))
  | inr e ↦ simp e (l, AllFrom-insert t p qs h all)
]

pub insert-Sorted :
    (p : PendingInterrupt) (ps : List PendingInterrupt) → Sorted ps → Sorted (insert p ps)
insert-Sorted p [] s = (tt, tt)
insert-Sorted p (q ∷ qs) (all, s) = elim (Bool-cases (ltb p.when q.when)) [
  | inl e ↦ simp e ((ground arith, AllFrom-le p.when q.when qs (ground arith) all), (all, s))
  | inr e ↦ simp e (AllFrom-insert q.when p qs (ground arith) all, insert-Sorted p qs s)
]

pub due-insert :
    (now : ℕ) (p : PendingInterrupt) (ps : List PendingInterrupt)
    → due now (insert p ps) ≡ due now (p ∷ ps)
due-insert now p [] = refl
due-insert now p (q ∷ qs) = elim (Bool-cases (ltb p.when q.when)) [
  | inl e ↦ simp e refl
  | inr e ↦ simp e (omega (arith, due-insert now p qs))
]

-- When the first is not due, none is.
pub due_none : (now t : ℕ) (ps : List PendingInterrupt) → now < t → AllFrom t ps → due now ps ≡ 0
due_none now t [] h all = refl
due_none now t (p ∷ ps) h (l, all) = ground (arith, due_none now t ps h all)

pub due-le_length : (now : ℕ) (ps : List PendingInterrupt) → due now ps ≤ length ps
due-le_length now [] = omega arith
due-le_length now (p ∷ ps) = ground (arith, due-le_length now ps)

-- The elements of a list of code/threads/list.cc whose items are these interrupts, with their times
-- as keys.
pub data Carries (interrupt_at : ℕ → PendingInterrupt)
    : List Node → List PendingInterrupt → Type 0 where
  nil : Carries interrupt_at [] []
  cons :
      (n : Node) (ns : List Node) (ps : List PendingInterrupt)
      → n.key ≡ pos (interrupt_at n.item).when
      → Carries interrupt_at ns ps
      → Carries interrupt_at (n ∷ ns) (interrupt_at n.item ∷ ps)

-- Where SortedInsert puts an element of the list is where `insert` puts its interrupt.
pub insert-Carries :
    (interrupt_at : ℕ → PendingInterrupt) (new : Node) (ns : List Node) (ps : List PendingInterrupt)
    → new.key ≡ pos (interrupt_at new.item).when
    → Carries interrupt_at ns ps
    → Carries interrupt_at (insert_node new ns) (insert (interrupt_at new.item) ps)
insert-Carries interrupt_at new _ _ e nil = cons new [] [] e nil
insert-Carries interrupt_at new _ _ e (cons n ns ps f rest) =
    let agree : lt_key new.key n.key ≡ ltb (interrupt_at new.item).when (interrupt_at n.item).when =
      ap₂ lt_key e f in
    elim (Bool-cases (ltb (interrupt_at new.item).when (interrupt_at n.item).when)) [
      | inl lt ↦
          simp (agree, lt) (cons new (n ∷ ns) (interrupt_at n.item ∷ ps) e (cons n ns ps f rest))
      | inr ge ↦
          simp (agree, ge)
            (cons n (insert_node new ns) (insert (interrupt_at new.item) ps) f
              (insert-Carries interrupt_at new ns ps e rest))
    ]
