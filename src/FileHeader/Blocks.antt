-- ===== src/FileHeader/Blocks.antt =====
-- Lists of sectors, as sets, and what it is for one bit map to be another with some of them taken.
use os_td_minf.Prelude.{
  sym, ap, ℕ, ◌+◌, ◌<◌, ◌≡◌, refl, ◌∙◌, inl, inr, Bool, true, false, ◌||◌, List, [], ◌∷◌, arith,
  ◌==◌, Bool-cases, length,
}
use os_td_minf.Bitmap.{BitMap}
use os_td_minf.Bitmap.Words.{IsValid, is_set, Updated}
use os_td_minf.Bitmap.Search.{free_count, clear_from, clear_from-mark}

abbrev pub has : ℕ → List ℕ → Bool
has j [] = false
has j (x ∷ xs) = (x == j) || has j xs

-- No sector stands in the list twice.
abbrev pub AllDistinct : List ℕ → Type 0
AllDistinct [] = Unit {0}
AllDistinct (x ∷ xs) = (has x xs ≡ false) × AllDistinct xs

-- `b'` is `b` with the sectors `ss` taken: they were free, are distinct, and are set now.
pub record Took (b : BitMap) (ss : List ℕ) (b' : BitMap) : Type 0 where
  pub valid : IsValid b'
  pub same_size : b'.num_bits ≡ b.num_bits
  pub bits : (j : ℕ) → is_set b' j ≡ (has j ss || is_set b j)
  pub fresh : (j : ℕ) → has j ss ≡ true → is_set b j ≡ false
  pub small : (j : ℕ) → has j ss ≡ true → j < b.num_bits
  pub distinct : AllDistinct ss
  pub count : free_count b ≡ free_count b' + length ss

pub Took-nil : (b : BitMap) → IsValid b → Took b [] b
Took-nil b is = record {
  valid = is;
  same_size = refl;
  bits = λ j. refl;
  fresh = λ j h. cc;
  small = λ j h. cc;
  distinct = tt;
  count = omega arith;
}

pub free_count-mark :
    (b : BitMap) (i : ℕ) (b' : BitMap)
    → Updated b i true b'
    → i < b.num_bits
    → is_set b i ≡ false
    → free_count b ≡ free_count b' + 1
free_count-mark b i b' u lt f =
    clear_from-mark b.num_bits 0 i (is_set b) (is_set b') u.bits (omega arith) (omega arith) f
    ∙ ap (λ n. clear_from n 0 (is_set b') + 1) (sym u.same_size)

pub Took-cons :
    (b : BitMap) (i : ℕ) (b' b'' : BitMap) (ss : List ℕ)
    → Updated b i true b'
    → i < b.num_bits
    → is_set b i ≡ false
    → Took b' ss b''
    → Took b (i ∷ ss) b''
Took-cons b i b' b'' ss u lt f t = record {
  valid = t.valid;
  same_size = t.same_size ∙ u.same_size;
  bits = λ j. ground (arith, t.bits j, u.bits j);
  fresh = λ j h. ground (arith, t.fresh j, u.bits j);
  small = λ j h. ground (arith, t.small j, u.same_size);
  distinct = (
    elim (Bool-cases (has i ss)) [ inl e ↦ ground (arith, t.fresh i e, u.bits i) | inr e ↦ e ],
    t.distinct,
  );
  count = omega (arith, t.count, free_count-mark b i b' u lt f);
}
