-- ===== src/LinkedList/Tests.antt =====
-- Runs of the code of code/threads/list.cc on small lists.
use os_td_minf.Prelude.{ℕ, ◌≡◌, refl, Option, none, some, List, [], ◌∷◌, ◌++◌, arith, ℤ, pos, ◌>>=◌}
use os_td_minf.LinkedList.Defs.{
  ListElement, Heap, LinkedList, put, append, prepend, sorted_insert, sorted_remove, walk,
}
use os_td_minf.LinkedList.Chain.{Node, IsList}
use os_td_minf.LinkedList.Ends.{
  node, Removes, append-Appends, prepend-Prepends, sorted_remove-Removes,
}
use os_td_minf.LinkedList.Destroy.{freed, destroy-Destroys}
use os_td_minf.LinkedList.Defs.{destroy}
use os_td_minf.LinkedList.Sorted.{Sorted, Placed, sorted_insert-Placed}

abbrev element : Option ℕ → ℤ → ℕ → Option ListElement
element next key item = some (record { next = next; key = key; item = item })

-- Elements at 4 and 9, with keys 10 and 20.
abbrev heap : Heap
heap = put (put (λ a. none) 4 (element (some 9) (pos 10) 100)) 9 (element none (pos 20) 200)

abbrev two : LinkedList
two = record { heap = heap; first = some 4; last = some 9 }

abbrev nodes : List Node
nodes = node 4 100 (pos 10) ∷ (node 9 200 (pos 20) ∷ [])

two-IsList : IsList two nodes
two-IsList = record {
  chain = (refl, (some 9, refl, (refl, (none, refl, refl))));
  ends = refl;
  distinct = (((λ e. omega (arith, e)), tt), (tt, tt));
}

abbrev taken : Option (Option (ℕ × ℤ) × LinkedList) → Option (Option (ℕ × ℤ))
taken r = r >>= λ (s : Option (ℕ × ℤ) × LinkedList). some s.0

-- An item with the key 10 comes behind the one that is there.
sorted_insert_runs :
    taken (
      sorted_insert 2 7 300 (pos 10) two >>= λ l.
      sorted_remove l >>= λ (r : Option (ℕ × ℤ) × LinkedList). sorted_remove r.1)
    ≡ some (some (300, pos 10))
unfolding sorted_insert sorted_remove walk
sorted_insert_runs = refl

append-Appends_example :
    (l' : LinkedList) × (append 7 300 two ≡ some l')
    × IsList l' (nodes ++ (node 7 300 (pos 0) ∷ []))
append-Appends_example = append-Appends two nodes 7 300 two-IsList refl

prepend-Prepends_example :
    (l' : LinkedList) × (prepend 7 300 two ≡ some l') × IsList l' (node 7 300 (pos 0) ∷ nodes)
prepend-Prepends_example = prepend-Prepends two nodes 7 300 two-IsList refl

sorted_remove-Removes_example : Removes two (sorted_remove two) nodes
sorted_remove-Removes_example = sorted_remove-Removes two nodes two-IsList

sorted_insert-Placed_example :
    (l' : LinkedList) × (ms : List Node) × (sorted_insert 2 7 300 (pos 10) two ≡ some l')
    × IsList l' ms
    × Sorted ms
    × Placed (node 7 300 (pos 10)) nodes ms
sorted_insert-Placed_example =
    sorted_insert-Placed 2 two nodes 7 300 (pos 10) two-IsList ((refl, tt), (tt, tt)) refl
      (omega arith)

destroy-Destroys_example :
    (l' : LinkedList) × (destroy 3 two ≡ some l') × IsList l' [] × (l'.heap ≡ freed two.heap nodes)
destroy-Destroys_example =
    destroy-Destroys 3 two nodes two-IsList ((λ e. omega (arith, e)), ((λ e. omega (arith, e)), tt))
      (omega arith)
