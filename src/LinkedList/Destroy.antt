-- ===== src/LinkedList/Destroy.antt =====
-- Remove and the destructor of code/threads/list.cc.
use os_td_minf.Prelude.{
  ℕ, zero, suc, ◌<◌, ◌≡◌, refl, ap, ◌∙◌, ◌≢◌, none, some, List, [], ◌∷◌, arith, ==_ne, length,
}
use os_td_minf.LinkedList.Defs.{Heap, LinkedList, put, sorted_remove, remove, destroy}
use os_td_minf.LinkedList.Chain.{Node, IsList}
use os_td_minf.LinkedList.Ends.{Removes, nothing, taken, sorted_remove-Removes}

-- The heap without the elements.
abbrev pub freed : Heap → List Node → Heap
freed h [] = h
freed h (n ∷ ns) = freed (put h n.at none) ns

-- No item is NULL.
abbrev pub AllItems : List Node → Type 0
AllItems [] = Unit
AllItems (n ∷ ns) = (n.item ≢ 0) × AllItems ns

abbrev Destroyed : ℕ → LinkedList → List Node → Type 0
Destroyed k l ns =
    (l' : LinkedList) × (destroy k l ≡ some l') × IsList l' [] × (l'.heap ≡ freed l.heap ns)

one_round :
    (k : ℕ) (l : LinkedList) (ns : List Node)
    → ((l₁ : LinkedList) (ms : List Node)
        → IsList l₁ ms
        → AllItems ms
        → length ms < k
        → Destroyed k l₁ ms)
    → IsList l ns
    → AllItems ns
    → length ns < suc k
    → Removes l (sorted_remove l) ns
    → Destroyed (suc k) l ns
unfolding destroy remove
one_round k l [] rest is items few (nothing q) = (l, rw q refl, is, refl)
one_round k l (n ∷ ns) rest is (item, items) few (taken _ _ l₁ q is₁ same) =
    let (l₂, done, is₂, heap) = rest l₁ ns is₁ items (omega arith) in
    (l₂, simp (q, ==_ne n.item 0 item) done, is₂, heap ∙ ap (λ h. freed h ns) same)

-- The destructor, on a list with no NULL item and with more rounds than elements, returns: the list is
-- empty and exactly its elements are deleted.
pub destroy-Destroys :
    (k : ℕ) (l : LinkedList) (ns : List Node)
    → IsList l ns
    → AllItems ns
    → length ns < k
    → (l' : LinkedList) × (destroy k l ≡ some l') × IsList l' [] × (l'.heap ≡ freed l.heap ns)
destroy-Destroys zero l ns is items few = absurd (omega arith)
destroy-Destroys (suc k) l ns is items few =
    one_round k l ns (destroy-Destroys k) is items few (sorted_remove-Removes l ns is)
