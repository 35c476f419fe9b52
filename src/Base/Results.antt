-- ===== src/Base/Results.antt =====
-- What a Go call of the repository can do: return a value, return an error, or panic (an index or a
-- slice out of range, a failed type assertion).
use mathlib.Core.Path.{◌≡◌, refl}

pub data Outcome {ℓ κ} (E : Type ℓ) (A : Type κ) : Type (ℓ ⊔ κ) where
  done : A → Outcome E A
  failed : E → Outcome E A
  panicked : Outcome E A

infixl 5 ◌>>=◌ ◌>>◌
abbrev pub ◌>>=◌ {ℓ κ ι} :
    {E : Type ℓ} {A : Type κ} {B : Type ι} → Outcome E A → (A → Outcome E B) → Outcome E B
done a >>= f = f a
failed e >>= f = failed e
panicked >>= f = panicked

abbrev pub ◌>>◌ {ℓ κ ι} :
    {E : Type ℓ} {A : Type κ} {B : Type ι} → Outcome E A → Outcome E B → Outcome E B
m >> k = m >>= λ _. k

-- Inversion of a bind that returned.
pub >>=-eq-done {ℓ κ ι} :
    {E : Type ℓ} {A : Type κ} {B : Type ι} (m : Outcome E A) (f : A → Outcome E B) {b : B}
    → (m >>= f) ≡ done b
    → (a : A) × (m ≡ done a) × (f a ≡ done b)
>>=-eq-done (done a) f h = (a, refl, h)
>>=-eq-done (failed e) f h = cc
>>=-eq-done panicked f h = cc
