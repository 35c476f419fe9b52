-- ===== src/Json/Layout/Order.antt =====
-- The order of the fields of an object.
use mathlib.Core.List.{Perm}
use mathlib.Core.List.Perm
use myduckserver.Base.{if_both, Bool, true, false, if◌then◌else◌, List, [], ◌∷◌, ◌≡◌, refl, arith}
use myduckserver.Charset.{Bytes}
use myduckserver.Json.Objects.{key_leb, insert_key, sort_keys}

key_leb_total : (k l : Bytes) → key_leb k l ≡ false → key_leb l k ≡ true
unfolding key_leb
key_leb_total [] l h = cc
key_leb_total (a ∷ k) [] h = refl
key_leb_total (a ∷ k) (b ∷ l) h = ground (arith, key_leb_total k l)

-- Each key is not above the one behind it.
abbrev pub IsSorted {ℓ} : {A : Type ℓ} → List (Bytes × A) → Type 0
IsSorted [] = Unit {0}
IsSorted (f ∷ []) = Unit {0}
IsSorted (f ∷ g ∷ fs) = (key_leb f.0 g.0 ≡ true) × IsSorted (g ∷ fs)

-- A field in front of a sorted list that it is not above.
module _ {ℓ} {A : Type ℓ} where
  insert_key-head :
      (f g : Bytes × A) (fs : List (Bytes × A))
      → key_leb g.0 f.0 ≡ true
      → IsSorted (g ∷ fs)
      → IsSorted (insert_key f fs)
      → IsSorted (g ∷ insert_key f fs)
  unfolding insert_key
  insert_key-head f g [] h s i = (h, tt)
  insert_key-head f g (k ∷ fs) h (s, _) i = by_order (key_leb f.0 k.0) i
    where
      by_order :
          (b : Bool)
          → IsSorted (if b then f ∷ k ∷ fs else k ∷ insert_key f fs)
          → IsSorted (g ∷ (if b then f ∷ k ∷ fs else k ∷ insert_key f fs))
      by_order true i = (h, i)
      by_order false i = (s, i)

  tail-IsSorted : (g : Bytes × A) (fs : List (Bytes × A)) → IsSorted (g ∷ fs) → IsSorted fs
  tail-IsSorted g [] s = tt
  tail-IsSorted g (k ∷ fs) s = s.1

  insert_key-IsSorted :
      (f : Bytes × A) (fs : List (Bytes × A)) → IsSorted fs → IsSorted (insert_key f fs)
  unfolding insert_key
  insert_key-IsSorted f [] s = tt
  insert_key-IsSorted f (g ∷ fs) s =
      by_order (key_leb f.0 g.0) refl (insert_key-IsSorted f fs (tail-IsSorted g fs s))
    where
      by_order :
          (b : Bool)
          → key_leb f.0 g.0 ≡ b
          → IsSorted (insert_key f fs)
          → IsSorted (if b then f ∷ g ∷ fs else g ∷ insert_key f fs)
      by_order true e i = (e, s)
      by_order false e i = insert_key-head f g fs (key_leb_total f.0 g.0 e) s i

  sort_keys-IsSorted : (fs : List (Bytes × A)) → IsSorted (sort_keys fs)
  unfolding sort_keys
  sort_keys-IsSorted [] = tt
  sort_keys-IsSorted (f ∷ fs) = insert_key-IsSorted f (sort_keys fs) (sort_keys-IsSorted fs)

  insert_key-Perm : (f : Bytes × A) (fs : List (Bytes × A)) → Perm (insert_key f fs) (f ∷ fs)
  unfolding insert_key
  insert_key-Perm f [] = Perm.refl (f ∷ [])
  insert_key-Perm f (g ∷ fs) =
      if_both (λ l. Perm l (f ∷ g ∷ fs)) (key_leb f.0 g.0) {x = f ∷ g ∷ fs}
        {y = g ∷ insert_key f fs} (Perm.refl (f ∷ g ∷ fs))
        (Perm.trans (Perm.cons g (insert_key-Perm f fs)) (Perm.swap f g fs))

  sort_keys-Perm : (fs : List (Bytes × A)) → Perm (sort_keys fs) fs
  unfolding sort_keys
  sort_keys-Perm [] = Perm.refl []
  sort_keys-Perm (f ∷ fs) =
      Perm.trans (insert_key-Perm f (sort_keys fs)) (Perm.cons f (sort_keys-Perm fs))

  -- The fields of an object are encoded in the order of their keys, and they are the fields that it has.
  pub sort_keys_lem : (fs : List (Bytes × A)) → IsSorted (sort_keys fs) × Perm (sort_keys fs) fs
  sort_keys_lem fs = (sort_keys-IsSorted fs, sort_keys-Perm fs)
