-- ===== src/Base/Maps.antt =====
-- Maps from numbers, as lists of pairs.
use Prim.Native.Nat.{ℕ}
use mathlib.Core.Path.{◌≡◌, refl}
use mathlib.Core.Logic.{◌≢◌}
use mathlib.Core.List.{List, [], ◌∷◌}
use mathlib.Core.Option.{Option, none, some}
use native.Mathlib.Omega.{arith}
use myduckserver.Base.Tests.{◌==◌, if◌then◌else◌}

-- m[id], and m[id] = v
abbrev pub find_id {ℓ} : {A : Type ℓ} → ℕ → List (ℕ × A) → Option A
find_id k [] = none
find_id k ((j, v) ∷ m) = if j == k then some v else find_id k m

abbrev pub put_id {ℓ} : {A : Type ℓ} → ℕ → A → List (ℕ × A) → List (ℕ × A)
put_id k v [] = (k, v) ∷ []
put_id k v ((j, w) ∷ m) = if j == k then (k, v) ∷ m else (j, w) ∷ put_id k v m

-- delete(m, id)
abbrev pub delete_id {ℓ} : {A : Type ℓ} → ℕ → List (ℕ × A) → List (ℕ × A)
delete_id k [] = []
delete_id k ((j, v) ∷ m) = let rest = delete_id k m in if j == k then rest else (j, v) ∷ rest

pub find_id-put_id {ℓ} :
    {A : Type ℓ} (k : ℕ) (v : A) (m : List (ℕ × A)) → find_id k (put_id k v m) ≡ some v
find_id-put_id k v [] = ground arith
find_id-put_id k v ((j, w) ∷ m) = ground (arith, find_id-put_id k v m)

pub find_id-put_id_other {ℓ} :
    {A : Type ℓ} (k l : ℕ) (v : A) (m : List (ℕ × A))
    → l ≢ k
    → find_id l (put_id k v m) ≡ find_id l m
find_id-put_id_other k l v [] h = ground arith
find_id-put_id_other k l v ((j, w) ∷ m) h = ground (arith, find_id-put_id_other k l v m h)

pub find_id-delete_id {ℓ} :
    {A : Type ℓ} (k : ℕ) (m : List (ℕ × A)) → find_id k (delete_id k m) ≡ none
find_id-delete_id k [] = refl
find_id-delete_id k ((j, w) ∷ m) = ground (arith, find_id-delete_id k m)
