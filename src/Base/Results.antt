-- ===== src/Base/Results.antt =====
-- What a call that may throw gives: a value that is returned, or an error.
use mathlib.Core.Path.{◌≡◌, refl}
use mathlib.Core.Logic.{◌⊎◌, inl, inr}

pub data Fallible {ℓ} (E : Type 0) (A : Type ℓ) : Type ℓ where
  ok : A → Fallible E A
  err : E → Fallible E A

-- The rest of the run happens only where the first call returned.
infixl 5 ◌>>=◌
abbrev pub ◌>>=◌ {ℓ κ} :
    {E : Type 0} {A : Type ℓ} {B : Type κ} → Fallible E A → (A → Fallible E B) → Fallible E B
err thrown >>= next = err thrown
ok value >>= next = next value

pub Fallible-cases {ℓ} :
    {E : Type 0} {A : Type ℓ} (m : Fallible E A) → ((a : A) × (m ≡ ok a)) ⊎ ((e : E) × (m ≡ err e))
Fallible-cases (ok a) = inl (a, refl)
Fallible-cases (err e) = inr (e, refl)

-- A run of two steps that returns: the first returned, and the second on what it gave.
pub both_ran {ℓ κ} :
    {E : Type 0} {A : Type ℓ} {B : Type κ} {b : B} (first : Fallible E A) (next : A → Fallible E B)
    → (first >>= next) ≡ ok b
    → (a : A) × (first ≡ ok a) × (next a ≡ ok b)
both_ran (err e) next run = cc
both_ran (ok a) next run = (a, refl, run)
