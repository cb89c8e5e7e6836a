-- ===== src/LinkedList/Ends.antt =====
-- Append, Prepend and Remove of code/threads/list.cc on the sequence that a list stands for.
use os_td_minf.Prelude.{
  ℕ, ◌≡◌, refl, sym, ap, ◌∙◌, false, Option, none, some, List, [], ◌∷◌, ◌++◌, ℤ, pos, ==_refl,
  ==_ne, set,
}
use os_td_minf.LinkedList.Defs.{
  Heap, LinkedList, put, set_next, is_empty, link_last, link_first, is_null, append, prepend,
  same_pointer, sorted_remove,
}
use os_td_minf.LinkedList.Chain.{
  Node, element, Chain, Away, Distinct, last_at, IsList, put_self, put_ne, Chain-put, Chain-Away,
  Distinct-append, last_at-append,
}

-- The next pointer of the last element is set to a new one, and nothing else changes.
pub record Extended (h : Heap) (p : Option ℕ) (ns : List Node) (new : Node) (h' : Heap)
    : Type 0 where
  pub longer : Chain h' p (ns ++ (new ∷ []))
  pub elsewhere : (c : ℕ) → Away c ns → h' c ≡ h c

pub set_next-Extended :
    (h : Heap) (p : Option ℕ) (n : Node) (ns : List Node) (new : Node)
    → Chain h p (n ∷ ns)
    → Distinct (n ∷ ns)
    → h new.at ≡ some (element new none)
    → Away new.at (n ∷ ns)
    → (h' : Heap) × (set_next h (last_at (n ∷ ns)) (some new.at) ≡ some h')
      × Extended h p (n ∷ ns) new h'
set_next-Extended h p n [] new (e, (next, at, c)) d fresh (ne, away) =
    let v = some (element n (some new.at)) in
    (
      put h n.at v,
      rw at refl,
      record {
        longer = (
          e,
          (some new.at, put_self h n.at v, (refl, (none, put_ne h n.at new.at v ne ∙ fresh, refl))),
        );
        elsewhere = λ b other. put_ne h n.at b v other.0;
      },
    )
set_next-Extended h p n (m ∷ ns) new (e, (next, at, c)) (apart, d) fresh (ne, away) =
    let (h', set, x) = set_next-Extended h next m ns new c d fresh away in
    (
      h',
      set,
      record {
        longer = (e, (next, x.elsewhere n.at apart ∙ at, x.longer));
        elsewhere = λ b other. x.elsewhere b other.1;
      },
    )

abbrev pub node : ℕ → ℕ → ℤ → Node
node address item key = record { at = address; key = key; item = item }

-- The heap with a new element at a free address still has the chain.
pub Chain-new :
    (h : Heap) (p : Option ℕ) (ns : List Node) (new : Node)
    → h new.at ≡ none
    → Chain h p ns
    → Chain (put h new.at (some (element new none))) p ns
Chain-new h p ns new free c =
    Chain-put h p ns new.at (some (element new none)) (Chain-Away h p ns new.at free c) c

pub only-IsList :
    (h : Heap) (new : Node)
    → IsList
        (record {
          heap = put h new.at (some (element new none));
          first = some new.at;
          last = some new.at;
        })
        (new ∷ [])
only-IsList h new = record {
  chain = (refl, (none, put_self h new.at (some (element new none)), refl));
  ends = refl;
  distinct = (tt, tt);
}

-- `last->next = element; last = element;` puts the new element at the end.
pub link_last-Appends :
    (l : LinkedList) (n : Node) (ns : List Node) (new : Node)
    → l.heap new.at ≡ none
    → IsList l (n ∷ ns)
    → (l' : LinkedList) × (link_last l (put l.heap new.at (some (element new none))) new.at
        ≡ some l')
      × IsList l' ((n ∷ ns) ++ (new ∷ []))
link_last-Appends l n ns new free is =
    let away = Chain-Away l.heap l.first (n ∷ ns) new.at free is.chain in
    let h = put l.heap new.at (some (element new none)) in
    let (h', set, x) =
      set_next-Extended h l.first n ns new (Chain-new l.heap l.first (n ∷ ns) new free is.chain)
        is.distinct (put_self l.heap new.at (some (element new none))) away in
    (
      record l { heap = h'; last = some new.at },
      simp (is.ends, set) refl,
      record {
        chain = x.longer;
        ends = sym (last_at-append (n ∷ ns) new);
        distinct = Distinct-append (n ∷ ns) new is.distinct away;
      },
    )

-- Append puts the item at the end of the sequence, with the key 0, when `new` returns a free address.
pub append-Appends :
    (l : LinkedList) (ns : List Node) (address item : ℕ)
    → IsList l ns
    → l.heap address ≡ none
    → (l' : LinkedList) × (append address item l ≡ some l')
      × IsList l' (ns ++ (node address item (pos 0) ∷ []))
unfolding append is_empty
append-Appends l [] address item is free =
    (_, simp (ap is_null is.chain) refl, only-IsList l.heap (node address item (pos 0)))
append-Appends l (n ∷ ns) address item is free =
    let (l', done, is') = link_last-Appends l n ns (node address item (pos 0)) free is in
    (l', simp (ap is_null is.chain.0) done, is')

-- `element->next = first; first = element;` puts the new element in front.
pub link_first-Prepends :
    (l : LinkedList) (n : Node) (ns : List Node) (new : Node)
    → l.heap new.at ≡ none
    → IsList l (n ∷ ns)
    → (l' : LinkedList) × (link_first l (put l.heap new.at (some (element new none))) new.at
        ≡ some l')
      × IsList l' (new ∷ (n ∷ ns))
link_first-Prepends l n ns new free is =
    let away = Chain-Away l.heap l.first (n ∷ ns) new.at free is.chain in
    let h = put l.heap new.at (some (element new none)) in
    let v = some (element new l.first) in
    (
      record { heap = put h new.at v; first = some new.at; last = l.last },
      rw (put_self l.heap new.at (some (element new none))) refl,
      record {
        chain = (
          refl,
          (
            l.first,
            put_self h new.at v,
            Chain-put h l.first (n ∷ ns) new.at v away
                (Chain-new l.heap l.first (n ∷ ns) new free is.chain),
          ),
        );
        ends = is.ends;
        distinct = (away, is.distinct);
      },
    )

-- Prepend puts the item in front of the sequence, with the key 0, when `new` returns a free address.
pub prepend-Prepends :
    (l : LinkedList) (ns : List Node) (address item : ℕ)
    → IsList l ns
    → l.heap address ≡ none
    → (l' : LinkedList) × (prepend address item l ≡ some l')
      × IsList l' (node address item (pos 0) ∷ ns)
unfolding prepend is_empty
prepend-Prepends l [] address item is free =
    (_, simp (ap is_null is.chain) refl, only-IsList l.heap (node address item (pos 0)))
prepend-Prepends l (n ∷ ns) address item is free =
    let (l', done, is') = link_first-Prepends l n ns (node address item (pos 0)) free is in
    (l', simp (ap is_null is.chain.0) done, is')

last_apart :
    (a : ℕ) (n : Node) (ns : List Node)
    → Away a (n ∷ ns)
    → same_pointer (some a) (last_at (n ∷ ns)) ≡ false
last_apart a n [] (ne, away) = ==_ne a n.at (λ e. ne (sym e))
last_apart a n (m ∷ ns) (ne, away) = last_apart a m ns away

-- SortedRemove on an empty list returns NULL, and on any other the first item with its key; it leaves
-- the list of the rest, and the first element is freed.
pub data Removes (l : LinkedList) (r : Option (Option (ℕ × ℤ) × LinkedList))
    : List Node → Type 0 where
  nothing : r ≡ some (none, l) → Removes l r []
  taken :
      (n : Node) (ns : List Node) (l' : LinkedList)
      → r ≡ some (some (n.item, n.key), l')
      → IsList l' ns
      → l'.heap ≡ put l.heap n.at none
      → Removes l r (n ∷ ns)

-- SortedRemove returns NULL on an empty list, and otherwise the first item and its key; the list that
-- is left stands for the rest, and that element alone is deleted.
pub sorted_remove-Removes :
    (l : LinkedList) (ns : List Node) → IsList l ns → Removes l (sorted_remove l) ns
unfolding sorted_remove
sorted_remove-Removes l [] is = nothing (simp is.chain refl)
sorted_remove-Removes l (n ∷ []) is =
    let (e, (next, at, c)) = is.chain in
    taken n [] (record { heap = put l.heap n.at none; first = none; last = none })
      (simp (e, is.ends, at, ==_refl n.at) refl)
      (record { chain = refl; ends = refl; distinct = tt }) refl
sorted_remove-Removes l (n ∷ (m ∷ ns)) is =
    let (e, (next, at, c)) = is.chain in
    let (apart, d) = is.distinct in
    taken n (m ∷ ns) (record { heap = put l.heap n.at none; first = next; last = l.last })
      (simp (e, at, is.ends, last_apart n.at m ns apart) refl)
      (record {
        chain = Chain-put l.heap next (m ∷ ns) n.at none apart c;
        ends = is.ends;
        distinct = d;
      })
      refl
