-- ===== src/LinkedList/Walk.antt =====
-- SortedInsert of code/threads/list.cc on the sequence that a list stands for.
use os_td_minf.Prelude.{
  ℕ, zero, suc, ◌≤◌, ◌<◌, ◌≡◌, refl, sym, ap, subst, ◌∙◌, ◌≢◌, inl, inr, Bool, true, false, Option,
  none, some, List, [], ◌∷◌, ◌++◌, arith, ℤ, if◌then◌else◌, ==_ne, Bool-cases, ◌>>=◌, length,
}
use os_td_minf.LinkedList.Defs.{
  Heap, LinkedList, put, lt_key, after_walk, insert_from, walk, sorted_insert,
}
use os_td_minf.LinkedList.Chain.{
  Node, element, Chain, Away, Distinct, last_at, IsList, put_self, put_ne, Chain-put, Chain-Away,
}
use os_td_minf.LinkedList.Ends.{
  node, Chain-new, only-IsList, link_first-Prepends, link_last-Appends,
}

-- The place of an element in a sequence sorted by keys: before the first with a greater key.
abbrev pub insert : Node → List Node → List Node
insert new [] = new ∷ []
insert new (n ∷ ns) = if lt_key new.key n.key then new ∷ (n ∷ ns) else n ∷ insert new ns

pub Away-insert :
    (a : ℕ) (new : Node) (ns : List Node) → new.at ≢ a → Away a ns → Away a (insert new ns)
Away-insert a new [] ne away = (ne, tt)
Away-insert a new (n ∷ ns) ne away = elim (Bool-cases (lt_key new.key n.key)) [
  | inl e ↦ simp e (ne, away)
  | inr e ↦ simp e (away.0, Away-insert a new ns ne away.1)
]

pub Distinct-insert :
    (new : Node) (ns : List Node) → Away new.at ns → Distinct ns → Distinct (insert new ns)
Distinct-insert new [] away d = (tt, tt)
Distinct-insert new (n ∷ ns) away d = elim (Bool-cases (lt_key new.key n.key)) [
  | inl e ↦ simp e (away, d)
  | inr e ↦
      simp e (Away-insert n.at new ns (λ q. away.0 (sym q)) d.0, Distinct-insert new ns away.1 d.1)
]

-- What the loop does after the element `x`: it links the new element in its place, or it comes to
-- the end and has changed nothing.
pub data Walks (h : Heap) (p : Option ℕ) (x : Node) (ns : List Node) (new : Node)
    (r : Option (Bool × Heap)) : Type 0 where
  placed :
      (h' : Heap)
      → r ≡ some (true, h')
      → Chain h' p (x ∷ insert new ns)
      → last_at (x ∷ insert new ns) ≡ last_at (x ∷ ns)
      → ((c : ℕ) → Away c (x ∷ ns) → new.at ≢ c → h' c ≡ h c)
      → Walks h p x ns new r
  passed : r ≡ some (false, h) → insert new ns ≡ ns ++ (new ∷ []) → Walks h p x ns new r

walk-Walks :
    (k : ℕ) (h : Heap) (p : Option ℕ) (x : Node) (ns : List Node) (new : Node)
    → length ns < k
    → Chain h p (x ∷ ns)
    → Distinct (x ∷ ns)
    → h new.at ≡ some (element new none)
    → Away new.at (x ∷ ns)
    → Walks h p x ns new (walk k h x.at new.at new.key)
unfolding walk
walk-Walks zero h p x ns new few c d fresh away = absurd (omega arith)
walk-Walks (suc k) h p x [] new few (e, (next, at, c)) d fresh away =
    passed (simp (at, c) refl) refl
walk-Walks (suc k) h p x (m ∷ ns) new few (e, (next, at, (to_m, (after, at_m, c_m)))) (apart, d)
      fresh (ne, away) =
    elim (Bool-cases (lt_key new.key m.key)) [
      | inl before ↦
          let v = some (element new (some m.at)) in
          let w = some (element x (some new.at)) in
          let h₁ = put h new.at v in
          let rest : Chain (put h₁ x.at w) (some m.at) (m ∷ ns) =
            Chain-put h₁ (some m.at) (m ∷ ns) x.at w apart
              (Chain-put h (some m.at) (m ∷ ns) new.at v away (refl, (after, at_m, c_m))) in
          let at_new = put_ne h₁ x.at new.at w ne ∙ put_self h new.at v in
          placed (put h₁ x.at w)
            (simp (at, to_m, at_m, before, fresh, ==_ne new.at x.at (λ q. ne (sym q))) refl)
            (simp before (e, (some new.at, put_self h₁ x.at w, (refl, (some m.at, at_new, rest)))))
            (simp before refl)
            λ b other apart'. put_ne h₁ x.at b w other.0 ∙ put_ne h new.at b v apart'
      | inr later ↦
          go later
            (walk-Walks k h next m ns new (omega arith) (to_m, (after, at_m, c_m)) d fresh away)
    ]
  where
    go :
        lt_key new.key m.key ≡ false
        → Walks h next m ns new (walk k h m.at new.at new.key)
        → Walks h p x (m ∷ ns) new (walk (suc k) h x.at new.at new.key)
    go later (placed h' q chain ends frame) =
        placed h' (simp (at, to_m, at_m, later) q)
          (simp later (e, (next, frame x.at apart (λ q. ne (sym q)) ∙ at, chain))) (simp later ends)
          λ b other apart'. frame b other.1 apart'
    go later (passed q same) =
        passed (simp (at, to_m, at_m, later) q) (simp later (ap (λ l. m ∷ l) same))

module _ (rounds : ℕ) (l : LinkedList) (x : Node) (ns : List Node) (new : Node)
    (is : IsList l (x ∷ ns)) (free : l.heap new.at ≡ none) (few : length ns < rounds) where
  away : Away new.at (x ∷ ns)
  away = Chain-Away l.heap l.first (x ∷ ns) new.at free is.chain

  -- When the new element is not the first, it is linked by the loop or by what follows it.
  inserts_later :
      (r : Option (Bool × Heap))
      → Walks (put l.heap new.at (some (element new none))) l.first x ns new r
      → (l' : LinkedList) × ((r >>= after_walk l new.at) ≡ some l') × IsList l' (x ∷ insert new ns)
  inserts_later r (placed h' q chain ends frame) =
      let (apart, d) = is.distinct in
      (
        record l { heap = h' },
        rw q refl,
        record {
          chain = chain;
          ends = is.ends ∙ sym ends;
          distinct = (
            Away-insert x.at new ns (λ p. away.0 (sym p)) apart,
            Distinct-insert new ns away.1 d,
          );
        },
      )
  inserts_later r (passed q same) =
      let (l', done, is') = link_last-Appends l x ns new free is in
      (l', rw q done, subst (λ ms. IsList l' (x ∷ ms)) (sym same) is')

  inserts :
      (l' : LinkedList) × (insert_from rounds l
          (put l.heap new.at (some (element new none)))
          new.at
          new.key
          (some x.at)
        ≡ some l')
      × IsList l' (insert new (x ∷ ns))
  inserts =
      let (e, (next, at, c)) = is.chain in
      let apart = ==_ne new.at x.at (λ q. away.0 (sym q)) in
      let h = put l.heap new.at (some (element new none)) in
      elim (Bool-cases (lt_key new.key x.key)) [
        | inl before ↦
            let (l', done, is') = link_first-Prepends l x ns new free is in
            (l', simp (apart, at, before) done, simp before is')
        | inr later ↦
            let walks =
              walk-Walks rounds h l.first x ns new few
                (Chain-new l.heap l.first (x ∷ ns) new free is.chain) is.distinct
                (put_self l.heap new.at (some (element new none))) away in
            let (l', done, is') = inserts_later (walk rounds h x.at new.at new.key) walks in
            (l', simp (apart, at, later) done, simp later is')
      ]

-- SortedInsert, when `new` returns a free address and the loop may run over the whole list, puts the
-- item in its place by key: behind every element up to the first with a greater key.
pub sorted_insert-Inserts :
    (rounds : ℕ) (l : LinkedList) (ns : List Node) (address item : ℕ) (key : ℤ)
    → IsList l ns
    → l.heap address ≡ none
    → length ns ≤ rounds
    → (l' : LinkedList) × (sorted_insert rounds address item key l ≡ some l')
      × IsList l' (insert (node address item key) ns)
unfolding sorted_insert
sorted_insert-Inserts rounds l [] address item key is free few =
    (_, simp is.chain refl, only-IsList l.heap (node address item key))
sorted_insert-Inserts rounds l (x ∷ ns) address item key is free few =
    let new = node address item key in
    let h = put l.heap address (some (element new none)) in
    let (l', done, is') = inserts rounds l x ns new is free (omega arith) in
    (l', ap (insert_from rounds l h address key) is.chain.0 ∙ done, is')
