-- ===== src/LinkedList/Defs.antt =====
-- The code of code/threads/list.cc, on a heap of list elements. Mapcar, which calls a function of its
-- client on each item, is left out.
use os_td_minf.Prelude.{
  ℕ, zero, suc, Bool, true, false, Option, none, some, ℤ, pos, negsuc, ltb, ◌==◌, if◌then◌else◌,
  ◌>>=◌,
}

-- A pointer is `none` for NULL. The key is a `long long`; an item is a pointer of the client.
pub record ListElement : Type 0 where
  pub next : Option ℕ
  pub key : ℤ
  pub item : ℕ

-- The elements that are allocated, by their addresses.
abbrev pub Heap : Type 0
Heap = ℕ → Option ListElement

-- The class List, with the heap that its elements are on.
pub record LinkedList : Type 0 where
  pub heap : Heap
  pub first : Option ℕ
  pub last : Option ℕ

abbrev pub put : Heap → ℕ → Option ListElement → Heap
put h a v b = if a == b then v else h b

-- `sortKey < key`
abbrev pub lt_key : ℤ → ℤ → Bool
lt_key (pos a) (pos b) = ltb a b
lt_key (pos a) (negsuc b) = false
lt_key (negsuc a) (pos b) = true
lt_key (negsuc a) (negsuc b) = ltb b a

-- `ptr->next = p`, a fault if `ptr` is not an element
abbrev pub set_next : Heap → Option ℕ → Option ℕ → Option Heap
set_next h none p = none
set_next h (some a) p = h a >>= λ (e : ListElement). some (put h a (some (record e { next = p })))

-- `p == q` on pointers
abbrev pub same_pointer : Option ℕ → Option ℕ → Bool
same_pointer none none = true
same_pointer none (some b) = false
same_pointer (some a) none = false
same_pointer (some a) (some b) = a == b

-- The constructor of ListElement.
abbrev pub new_element : ℕ → ℤ → ListElement
new_element item key = record { next = none; key = key; item = item }

unfoldable pub create : Heap → LinkedList
create h = record { heap = h; first = none; last = none }

abbrev pub is_null : Option ℕ → Bool
is_null none = true
is_null (some a) = false

unfoldable pub is_empty : LinkedList → Bool
is_empty l = is_null l.first

-- `address` is what `new ListElement` returns, here and below.
abbrev pub only : Heap → ℕ → LinkedList
only h address = record { heap = h; first = some address; last = some address }

-- `last->next = element; last = element;`
abbrev pub link_last : LinkedList → Heap → ℕ → Option LinkedList
link_last l h address =
    set_next h l.last (some address) >>= λ h'. some (record l { heap = h'; last = some address })

-- `element->next = first; first = element;`
abbrev pub link_first : LinkedList → Heap → ℕ → Option LinkedList
link_first l h address =
    set_next h (some address) l.first >>= λ h'. some (record l { heap = h'; first = some address })

unfoldable pub append : ℕ → ℕ → LinkedList → Option LinkedList
unfolding is_empty
append address item l =
    let h = put l.heap address (some (new_element item (pos 0))) in
    if is_empty l then some (only h address) else link_last l h address

unfoldable pub prepend : ℕ → ℕ → LinkedList → Option LinkedList
unfolding is_empty
prepend address item l =
    let h = put l.heap address (some (new_element item (pos 0))) in
    if is_empty l then some (only h address) else link_first l h address

-- The body of the loop of SortedInsert at the element `ptr`, whose next pointer is given, with the
-- rest of the loop. The Boolean says that the function has returned.
abbrev pub walk_step :
    Heap → ℕ → ℕ → ℤ → (ℕ → Option (Bool × Heap)) → Option ℕ → Option (Bool × Heap)
walk_step h ptr address sort_key rest none = some (false, h)
walk_step h ptr address sort_key rest (some n) = do
  e ← h n
  let linked = do
    h' ← set_next h (some address) (some n)
    h₂ ← set_next h' (some ptr) (some address)
    some (true, h₂)
  let further = rest n
  if lt_key sort_key e.key then linked else further

-- The loop, for at most the given number of elements.
unfoldable pub walk : ℕ → Heap → ℕ → ℕ → ℤ → Option (Bool × Heap)
walk zero h ptr address sort_key = none
walk (suc k) h ptr address sort_key = h ptr >>= λ (e : ListElement).
    walk_step h ptr address sort_key (λ n. walk k h n address sort_key) e.next

abbrev pub after_walk : LinkedList → ℕ → Bool × Heap → Option LinkedList
after_walk l address (true, h) = some (record l { heap = h })
after_walk l address (false, h) = link_last l h address

-- From the element that `first` points to, when there is one.
abbrev pub insert_from : ℕ → LinkedList → Heap → ℕ → ℤ → Option ℕ → Option LinkedList
insert_from rounds l h address sort_key none = some (only h address)
insert_from rounds l h address sort_key (some a) = do
  e ← h a
  let front = link_first l h address
  let further = walk rounds h a address sort_key >>= after_walk l address
  if lt_key sort_key e.key then front else further

-- `rounds` bounds the loop.
unfoldable pub sorted_insert : ℕ → ℕ → ℕ → ℤ → LinkedList → Option LinkedList
sorted_insert rounds address item sort_key l =
    insert_from rounds l (put l.heap address (some (new_element item sort_key))) address sort_key
      l.first

-- The element's item and key, or `none` for NULL, and the list after it.
abbrev pub remove_from : LinkedList → Option ℕ → Option (Option (ℕ × ℤ) × LinkedList)
remove_from l none = some (none, l)
remove_from l (some a) = do
  e ← l.heap a
  let freed = put l.heap a none
  let rest =
      if same_pointer l.first l.last
      then record { heap = freed; first = none; last = none }
      else record l { heap = freed; first = e.next }
  some (some (e.item, e.key), rest)

unfoldable pub sorted_remove : LinkedList → Option (Option (ℕ × ℤ) × LinkedList)
sorted_remove l = remove_from l l.first

-- SortedRemove (NULL): the item alone.
abbrev pub item_of : Option (ℕ × ℤ) → Option ℕ
item_of none = none
item_of (some (item, key)) = some item

unfoldable pub remove : LinkedList → Option (Option ℕ × LinkedList)
remove l = sorted_remove l >>= λ (r : Option (ℕ × ℤ) × LinkedList). some (item_of r.0, r.1)

-- The loop of the destructor, for at most the given number of rounds: it stops at NULL, which is also
-- an item.
abbrev pub destroy_next :
    (LinkedList → Option LinkedList) → Option ℕ × LinkedList → Option LinkedList
destroy_next rest (none, l) = some l
destroy_next rest (some item, l) = let further = rest l in if item == 0 then some l else further

unfoldable pub destroy : ℕ → LinkedList → Option LinkedList
destroy zero l = none
destroy (suc k) l = remove l >>= destroy_next (destroy k)
