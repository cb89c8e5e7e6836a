-- ===== src/LinkedList/Chain.antt =====
-- The sequence of elements that a list of code/threads/list.cc stands for.
use os_td_minf.Prelude.{
  ℕ, ◌≡◌, refl, sym, ap, ◌∙◌, ◌≢◌, Option, none, some, List, [], ◌∷◌, ◌++◌, arith, ℤ, ==_refl,
  ==_ne,
}
use os_td_minf.LinkedList.Defs.{ListElement, Heap, LinkedList, put}

pub record Node : Type 0 where
  pub at : ℕ
  pub key : ℤ
  pub item : ℕ

abbrev pub element : Node → Option ℕ → ListElement
element n next = record { next = next; key = n.key; item = n.item }

-- From the pointer `p` the next pointers go through these elements, and end at NULL.
abbrev pub Chain : Heap → Option ℕ → List Node → Type 0
Chain h p [] = p ≡ none
Chain h p (n ∷ ns) =
    (p ≡ some n.at) × ((next : Option ℕ) × (h n.at ≡ some (element n next)) × Chain h next ns)

abbrev pub Away : ℕ → List Node → Type 0
Away a [] = Unit
Away a (n ∷ ns) = (n.at ≢ a) × Away a ns

abbrev pub Distinct : List Node → Type 0
Distinct [] = Unit
Distinct (n ∷ ns) = Away n.at ns × Distinct ns

abbrev pub last_at : List Node → Option ℕ
last_at [] = none
last_at (n ∷ []) = some n.at
last_at (n ∷ (m ∷ ns)) = last_at (m ∷ ns)

pub record IsList (l : LinkedList) (ns : List Node) : Type 0 where
  pub chain : Chain l.heap l.first ns
  pub ends : l.last ≡ last_at ns
  pub distinct : Distinct ns

pub put_self : (h : Heap) (a : ℕ) (v : Option ListElement) → put h a v a ≡ v
put_self h a v = rw (==_refl a) refl

pub put_ne : (h : Heap) (a b : ℕ) (v : Option ListElement) → a ≢ b → put h a v b ≡ h b
put_ne h a b v ne = rw (==_ne a b ne) refl

-- A heap that agrees on the elements has the same chain.
pub Chain-agree :
    (h h' : Heap) (p : Option ℕ) (ns : List Node)
    → ((b : ℕ) (e : ListElement) → h b ≡ some e → h' b ≡ some e)
    → Chain h p ns
    → Chain h' p ns
Chain-agree h h' p [] same c = c
Chain-agree h h' p (n ∷ ns) same (e, (next, at, c)) =
    (e, (next, same n.at (element n next) at, Chain-agree h h' next ns same c))

pub Chain-put :
    (h : Heap) (p : Option ℕ) (ns : List Node) (a : ℕ) (v : Option ListElement)
    → Away a ns
    → Chain h p ns
    → Chain (put h a v) p ns
Chain-put h p [] a v away c = c
Chain-put h p (n ∷ ns) a v (ne, away) (e, (next, at, c)) =
    (e, (next, put_ne h a n.at v (λ q. ne (sym q)) ∙ at, Chain-put h next ns a v away c))

-- An address that is not allocated is none of theirs.
pub Chain-Away :
    (h : Heap) (p : Option ℕ) (ns : List Node) (a : ℕ) → h a ≡ none → Chain h p ns → Away a ns
Chain-Away h p [] a free c = tt
Chain-Away h p (n ∷ ns) a free (e, (next, at, c)) =
    (λ q. some≢none' (sym at ∙ ap h q ∙ free), Chain-Away h next ns a free c)
  where
    some≢none' : {x : ListElement} → some x ≢ none
    some≢none' e = ground arith

pub Away-append :
    (a : ℕ) (ns : List Node) (n : Node) → Away a ns → n.at ≢ a → Away a (ns ++ (n ∷ []))
Away-append a [] n away ne = (ne, tt)
Away-append a (m ∷ ns) n (ne', away) ne = (ne', Away-append a ns n away ne)

pub Distinct-append :
    (ns : List Node) (n : Node) → Distinct ns → Away n.at ns → Distinct (ns ++ (n ∷ []))
Distinct-append [] n d away = (tt, tt)
Distinct-append (m ∷ ns) n (a, d) (ne, away) =
    (Away-append m.at ns n a (λ q. ne (sym q)), Distinct-append ns n d away)

pub last_at-append : (ns : List Node) (n : Node) → last_at (ns ++ (n ∷ [])) ≡ some n.at
last_at-append [] n = refl
last_at-append (m ∷ []) n = refl
last_at-append (m ∷ (k ∷ ns)) n = last_at-append (k ∷ ns) n
