-- ===== src/Directory/Names.antt =====
-- The C strings of code/filesys/directory.cc: a string is the bytes before its terminator, and
-- reading past the end of a list reads the terminator. `strncmp` and `strncpy` as in the C library.
use os_td_minf.Prelude.{
  ℕ, zero, suc, ◌≤◌, ◌≡◌, refl, ap, ◌↔◌, Bool, true, false, ◌&&◌, ◌||◌, List, [], ◌∷◌, arith, ◌==◌,
  if◌then◌else◌, length,
}

abbrev pub Name : Type 0
Name = List ℕ

-- `!strncmp (a, b, n)`
unfoldable pub strncmp_eq : ℕ → List ℕ → List ℕ → Bool
strncmp_eq zero a b = true
strncmp_eq (suc n) [] [] = true
strncmp_eq (suc n) [] (y ∷ ys) = y == 0
strncmp_eq (suc n) (x ∷ xs) [] = x == 0
strncmp_eq (suc n) (x ∷ xs) (y ∷ ys) = x == y && (x == 0 || strncmp_eq n xs ys)

-- strncpy (dst, src, n): a short source is padded with zeros.
unfoldable pub strncpy : ℕ → List ℕ → List ℕ → List ℕ
strncpy zero dst src = dst
strncpy (suc n) [] src = []
strncpy (suc n) (d ∷ ds) [] = 0 ∷ strncpy n ds []
strncpy (suc n) (d ∷ ds) (s ∷ ss) = s ∷ strncpy n ds (if s == 0 then [] else ss)

-- The string in a buffer, cut off after `n` characters.
unfoldable pub c_prefix : ℕ → List ℕ → Name
c_prefix zero xs = []
c_prefix (suc n) [] = []
c_prefix (suc n) (x ∷ xs) = if x == 0 then [] else x ∷ c_prefix n xs

unfoldable pub name_eq : Name → Name → Bool
name_eq [] [] = true
name_eq [] (y ∷ ys) = false
name_eq (x ∷ xs) [] = false
name_eq (x ∷ xs) (y ∷ ys) = x == y && name_eq xs ys

pub name_eq_iff : (a b : Name) → (name_eq a b ≡ true) ↔ (a ≡ b)
unfolding name_eq
name_eq_iff [] [] = (λ h. refl, λ h. refl)
name_eq_iff [] (y ∷ ys) = (λ h. cc, λ h. cc)
name_eq_iff (x ∷ xs) [] = (λ h. cc, λ h. cc)
name_eq_iff (x ∷ xs) (y ∷ ys) = ground (arith, name_eq_iff xs ys)

pub name_eq_refl : (a : Name) → name_eq a a ≡ true
name_eq_refl a = (name_eq_iff a a).1 refl

-- strncmp compares what stands before the terminators, up to `n` characters.
pub strncmp_eq-prefix :
    (n : ℕ) (a b : List ℕ) → strncmp_eq n a b ≡ name_eq (c_prefix n a) (c_prefix n b)
unfolding strncmp_eq c_prefix name_eq
strncmp_eq-prefix zero a b = refl
strncmp_eq-prefix (suc n) [] [] = refl
strncmp_eq-prefix (suc n) [] (y ∷ ys) = ground arith
strncmp_eq-prefix (suc n) (x ∷ xs) [] = ground arith
strncmp_eq-prefix (suc n) (x ∷ xs) (y ∷ ys) = ground (arith, strncmp_eq-prefix n xs ys)

-- strncpy into a buffer of at least `n` bytes copies the string, up to `n` characters.
pub c_prefix-strncpy :
    (n : ℕ) (dst src : List ℕ) → n ≤ length dst → c_prefix n (strncpy n dst src) ≡ c_prefix n src
unfolding c_prefix strncpy
c_prefix-strncpy zero dst src h = refl
c_prefix-strncpy (suc n) [] src h = absurd (omega arith)
c_prefix-strncpy (suc n) (d ∷ ds) [] h = refl
c_prefix-strncpy (suc n) (d ∷ ds) (s ∷ ss) h = ground (arith, c_prefix-strncpy n ds ss)

pub length-strncpy : (n : ℕ) (dst src : List ℕ) → length (strncpy n dst src) ≡ length dst
unfolding strncpy
length-strncpy zero dst src = refl
length-strncpy (suc n) [] src = refl
length-strncpy (suc n) (d ∷ ds) [] = ap suc (length-strncpy n ds [])
length-strncpy (suc n) (d ∷ ds) (s ∷ ss) = ap suc (length-strncpy n ds (if s == 0 then [] else ss))
