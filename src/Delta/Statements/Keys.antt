-- ===== src/Delta/Statements/Keys.antt =====
-- The columns that a deletion by a view projects.
use Prim.Native.String.{String}
use myduckserver.Base.{
  ℕ, zero, suc, ◌+◌, none, some, List, [], ◌∷◌, get_elem?, drop, ◌≡◌, refl, arith,
}
use myduckserver.Identifier.{quote_identifier_ansi}
use myduckserver.Delta.Statements.{
  Column, augmented_schema, num_augmented_fields, key_indices, get_primary_key_indices, key_names,
}

-- The quoted names of the columns that stand at the indices.
abbrev pub names_at : List Column → List ℕ → List String
names_at schema [] = []
names_at schema (i ∷ is) = elim (get_elem? schema i) [
  | none ↦ []
  | some c ↦ quote_identifier_ansi c.name ∷ names_at schema is
]

drop-get_elem? :
    {A : Type 0} (xs : List A) (i : ℕ) (c : A) (cs : List A)
    → drop i xs ≡ c ∷ cs
    → (get_elem? xs i ≡ some c) × (drop (suc i) xs ≡ cs)
drop-get_elem? [] zero c cs h = cc
drop-get_elem? [] (suc i) c cs h = cc
drop-get_elem? (x ∷ xs) zero c cs h = ground arith
drop-get_elem? (x ∷ xs) (suc i) c cs h = drop-get_elem? xs i c cs h

names_at-key_indices :
    (whole : List Column) (i : ℕ) (cs : List Column)
    → drop (i + num_augmented_fields) whole ≡ cs
    → names_at whole (key_indices i cs) ≡ key_names cs
unfolding key_indices key_names num_augmented_fields
names_at-key_indices whole i [] h = refl
names_at-key_indices whole i (c ∷ cs) h =
    let (found, behind) = drop-get_elem? whole (i + 6) c cs h in
    let e : suc (i + 6) ≡ i + 1 + 6 = omega arith in
    let rest = names_at-key_indices whole (i + 1) cs (rw e at behind) in ground (arith, found, rest)

-- The columns of the delta view that a deletion projects are the columns of the primary key, in the order
-- in which the statement's tuple names them.
pub names_at-get_primary_key_indices :
    (base : List Column)
    → names_at (augmented_schema base) (get_primary_key_indices base) ≡ key_names base
unfolding get_primary_key_indices augmented_schema num_augmented_fields
names_at-get_primary_key_indices base = names_at-key_indices (augmented_schema base) 0 base refl
