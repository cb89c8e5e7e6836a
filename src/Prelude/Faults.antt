-- ===== src/Prelude/Faults.antt =====
-- Code that may stop: `none` is a failed ASSERT, or an access outside an array or the heap.
use mathlib.Core.Bool.{Bool, true, false}
use mathlib.Core.Option.{Option, none, some}

module _ {ℓ κ} {A : Type ℓ} {B : Type κ} where
  infixl 5 ◌>>=◌
  abbrev pub ◌>>=◌ : Option A → (A → Option B) → Option B
  none >>= f = none
  some a >>= f = f a

infixl 5 ◌>>◌
abbrev pub ◌>>◌ {κ} : {B : Type κ} → Option (Unit {0}) → Option B → Option B
m >> k = m >>= λ _. k

-- ASSERT of utility.h.
abbrev pub assert : Bool → Option (Unit {0})
assert true = some tt
assert false = none
