-- ===== src/Kernel/Threads.antt =====
-- Lists of threads: what holds of all of them, no thread twice, and a sum over them.
use os_td_minf.Prelude.{ℕ, ◌+◌, ◌≡◌, refl, sym, ap₂, ◌≢◌, List, [], ◌∷◌, ◌++◌, arith}

abbrev pub AllIn : (ℕ → Type 0) → List ℕ → Type 0
AllIn P [] = Unit
AllIn P (t ∷ ts) = P t × AllIn P ts

abbrev pub Fresh : ℕ → List ℕ → Type 0
Fresh t ts = AllIn (λ u. t ≢ u) ts

abbrev pub NoDup : List ℕ → Type 0
NoDup [] = Unit
NoDup (t ∷ ts) = Fresh t ts × NoDup ts

abbrev pub total : (ℕ → ℕ) → List ℕ → ℕ
total f [] = 0
total f (t ∷ ts) = f t + total f ts

pub AllIn-append :
    (P : ℕ → Type 0) (ts : List ℕ) (t : ℕ) → AllIn P ts → P t → AllIn P (ts ++ (t ∷ []))
AllIn-append P [] t h p = (p, tt)
AllIn-append P (u ∷ us) t h p = (h.0, AllIn-append P us t h.1 p)

pub AllIn-map : (P Q : ℕ → Type 0) (ts : List ℕ) → ((t : ℕ) → P t → Q t) → AllIn P ts → AllIn Q ts
AllIn-map P Q [] f h = tt
AllIn-map P Q (u ∷ us) f h = (f u h.0, AllIn-map P Q us f h.1)

pub AllIn-map_but :
    (P Q : ℕ → Type 0) (t : ℕ) (ts : List ℕ)
    → Fresh t ts
    → ((u : ℕ) → t ≢ u → P u → Q u)
    → AllIn P ts
    → AllIn Q ts
AllIn-map_but P Q t [] fresh f h = tt
AllIn-map_but P Q t (u ∷ us) fresh f h = (f u fresh.0 h.0, AllIn-map_but P Q t us fresh.1 f h.1)

-- A thread that lacks what holds of all of the list is not in it.
pub lacks-Fresh :
    (P : ℕ → Type 0) (t : ℕ) (ts : List ℕ) → AllIn P ts → ((u : ℕ) → P u → t ≢ u) → Fresh t ts
lacks-Fresh P t ts h f = AllIn-map P (λ u. t ≢ u) ts f h

pub NoDup-append : (ts : List ℕ) (t : ℕ) → NoDup ts → Fresh t ts → NoDup (ts ++ (t ∷ []))
NoDup-append [] t h fresh = (tt, tt)
NoDup-append (u ∷ us) t h fresh =
    (AllIn-append (λ v. u ≢ v) us t h.0 (λ e. fresh.0 (sym e)), NoDup-append us t h.1 fresh.1)

pub total-append : (f : ℕ → ℕ) (ts : List ℕ) (t : ℕ) → total f (ts ++ (t ∷ [])) ≡ total f ts + f t
total-append f [] t = omega arith
total-append f (u ∷ us) t = omega (arith, total-append f us t)

pub total_same : (f g : ℕ → ℕ) (ts : List ℕ) → AllIn (λ u. f u ≡ g u) ts → total f ts ≡ total g ts
total_same f g [] h = refl
total_same f g (u ∷ us) h = ap₂ ◌+◌ h.0 (total_same f g us h.1)
