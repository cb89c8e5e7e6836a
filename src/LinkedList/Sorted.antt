-- ===== src/LinkedList/Sorted.antt =====
-- SortedInsert of code/threads/list.cc keeps a sorted list sorted, with equal keys in order of
-- arrival.
use os_td_minf.Prelude.{
  ℕ, ◌≤◌, ◌≡◌, refl, ap, inl, inr, true, false, none, some, List, [], ◌∷◌, ◌++◌, arith, ℤ, pos,
  negsuc, Bool-cases, length,
}
use os_td_minf.LinkedList.Defs.{LinkedList, lt_key, sorted_insert}
use os_td_minf.LinkedList.Chain.{Node, IsList}
use os_td_minf.LinkedList.Ends.{node}
use os_td_minf.LinkedList.Walk.{insert, sorted_insert-Inserts}

-- No element has a smaller key than one before it.
abbrev pub AllFrom : ℤ → List Node → Type 0
AllFrom key [] = Unit
AllFrom key (n ∷ ns) = (lt_key n.key key ≡ false) × AllFrom key ns

abbrev pub Sorted : List Node → Type 0
Sorted [] = Unit
Sorted (n ∷ ns) = AllFrom n.key ns × Sorted ns

-- Every key is at most `key`, and every key is greater.
abbrev pub AllUpTo : ℤ → List Node → Type 0
AllUpTo key [] = Unit
AllUpTo key (n ∷ ns) = (lt_key key n.key ≡ false) × AllUpTo key ns

abbrev pub AllAbove : ℤ → List Node → Type 0
AllAbove key [] = Unit
AllAbove key (n ∷ ns) = (lt_key key n.key ≡ true) × AllAbove key ns

lt_key_asym : (a b : ℤ) → lt_key a b ≡ true → lt_key b a ≡ false
lt_key_asym (pos a) (pos b) h = ground arith
lt_key_asym (pos a) (negsuc b) h = ground arith
lt_key_asym (negsuc a) (pos b) h = refl
lt_key_asym (negsuc a) (negsuc b) h = ground arith

lt_key_trans : (a b c : ℤ) → lt_key a b ≡ true → lt_key c b ≡ false → lt_key a c ≡ true
lt_key_trans (pos a) (pos b) (pos c) h l = ground arith
lt_key_trans (pos a) (pos b) (negsuc c) h l = ground arith
lt_key_trans (pos a) (negsuc b) c h l = ground arith
lt_key_trans (negsuc a) (pos b) (pos c) h l = refl
lt_key_trans (negsuc a) (pos b) (negsuc c) h l = ground arith
lt_key_trans (negsuc a) (negsuc b) (pos c) h l = refl
lt_key_trans (negsuc a) (negsuc b) (negsuc c) h l = ground arith

AllFrom-AllAbove :
    (key bound : ℤ) (ns : List Node) → lt_key key bound ≡ true → AllFrom bound ns → AllAbove key ns
AllFrom-AllAbove key bound [] h all = tt
AllFrom-AllAbove key bound (n ∷ ns) h (l, all) =
    (lt_key_trans key bound n.key h l, AllFrom-AllAbove key bound ns h all)

-- The new element stands behind all keys up to its own, and before all greater ones.
pub record Placed (new : Node) (ns result : List Node) : Type 0 where
  pub before : List Node
  pub after : List Node
  pub was : ns ≡ before ++ after
  pub is : result ≡ before ++ (new ∷ after)
  pub up_to : AllUpTo new.key before
  pub above : AllAbove new.key after

pub insert-Placed : (new : Node) (ns : List Node) → Sorted ns → Placed new ns (insert new ns)
insert-Placed new [] s = record {
  before = [];
  after = [];
  was = refl;
  is = refl;
  up_to = tt;
  above = tt;
}
insert-Placed new (n ∷ ns) (all, s) = elim (Bool-cases (lt_key new.key n.key)) [
  | inl e ↦ record {
    before = [];
    after = n ∷ ns;
    was = refl;
    is = simp e refl;
    up_to = tt;
    above = (e, AllFrom-AllAbove new.key n.key ns e all);
  }
  | inr e ↦
      let p = insert-Placed new ns s in
      record {
        before = n ∷ p.before;
        after = p.after;
        was = ap (λ l. n ∷ l) p.was;
        is = simp e (ap (λ l. n ∷ l) p.is);
        up_to = (e, p.up_to);
        above = p.above;
      }
]

AllAbove-AllFrom : (key : ℤ) (ns : List Node) → AllAbove key ns → AllFrom key ns
AllAbove-AllFrom key [] all = tt
AllAbove-AllFrom key (n ∷ ns) (h, all) = (lt_key_asym key n.key h, AllAbove-AllFrom key ns all)

AllFrom-insert :
    (key : ℤ) (new : Node) (ns : List Node)
    → lt_key new.key key ≡ false
    → AllFrom key ns
    → AllFrom key (insert new ns)
AllFrom-insert key new [] h all = (h, tt)
AllFrom-insert key new (n ∷ ns) h (l, all) = elim (Bool-cases (lt_key new.key n.key)) [
  | inl e ↦ simp e (h, (l, all))
  | inr e ↦ simp e (l, AllFrom-insert key new ns h all)
]

insert-Sorted : (new : Node) (ns : List Node) → Sorted ns → Sorted (insert new ns)
insert-Sorted new [] s = (tt, tt)
insert-Sorted new (n ∷ ns) (all, s) = elim (Bool-cases (lt_key new.key n.key)) [
  | inl e ↦
      simp e
        (AllAbove-AllFrom new.key (n ∷ ns) (e, AllFrom-AllAbove new.key n.key ns e all), (all, s))
  | inr e ↦ simp e (AllFrom-insert n.key new ns e all, insert-Sorted new ns s)
]

-- On a list sorted by keys, SortedInsert gives a sorted list, in which the new item stands behind all
-- keys up to its own and before all greater ones, and nothing else has moved, when `new` returns a
-- free address and the loop may run over the whole list.
pub sorted_insert-Placed :
    (rounds : ℕ) (l : LinkedList) (ns : List Node) (address item : ℕ) (key : ℤ)
    → IsList l ns
    → Sorted ns
    → l.heap address ≡ none
    → length ns ≤ rounds
    → (l' : LinkedList) × (ms : List Node) × (sorted_insert rounds address item key l ≡ some l')
      × IsList l' ms
      × Sorted ms
      × Placed (node address item key) ns ms
sorted_insert-Placed rounds l ns address item key is s free few =
    let new = node address item key in
    let (l', done, is') = sorted_insert-Inserts rounds l ns address item key is free few in
    (l', insert new ns, done, is', insert-Sorted new ns s, insert-Placed new ns s)
