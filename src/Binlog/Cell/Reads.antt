-- ===== src/Binlog/Cell/Reads.antt =====
-- The readers of Binlog/Cell: they panic exactly beyond the end, and read the same bytes wherever the
-- bytes stand.
use native.Mathlib.Nat.{add_assoc}
use myduckserver.Base.{
  ℕ, zero, suc, ◌+◌, ◌*◌, ◌≤◌, ◌<◌, ◌≡◌, refl, ap, arith, ◌⊎◌, inl, inr, [], ◌∷◌, ◌++◌, length,
  get_elem?, drop, done, panicked, length-append, take-append, le→leb,
}
use myduckserver.Charset.{Bytes}
use myduckserver.Binlog.Cell.{byte_at, le_at, be_at, slice}

-- A byte inside the data is read, and one outside panics.
pub byte_at_cases :
    (d : Bytes) (i : ℕ)
    → ((i < length d) × ((v : ℕ) × (byte_at d i ≡ done v))) ⊎ (byte_at d i ≡ panicked)
unfolding byte_at
byte_at_cases [] i = inr refl
byte_at_cases (b ∷ d) zero = inl (omega arith, (b, refl))
byte_at_cases (b ∷ d) (suc i) = elim (byte_at_cases d i) [
  | inl (h, r) ↦ inl (omega arith, r)
  | inr e ↦ inr e
]

pub byte_at_bound : (d : Bytes) (i : ℕ) → (i < length d) ⊎ (byte_at d i ≡ panicked)
byte_at_bound d i = elim (byte_at_cases d i) [ inl (h, _) ↦ inl h | inr e ↦ inr e ]

pub le_at_bound : (d : Bytes) (i n : ℕ) → (i + n ≤ length d) ⊎ ((le_at d i n ≡ panicked) ⊎ (n ≡ 0))
unfolding le_at
le_at_bound d i zero = inr (inr refl)
le_at_bound d i (suc n) = ground (arith, byte_at_bound d i, le_at_bound d (i + 1) n)

pub be_at_bound :
    (d : Bytes) (i n acc : ℕ) → (i + n ≤ length d) ⊎ ((be_at d i n acc ≡ panicked) ⊎ (n ≡ 0))
unfolding be_at
be_at_bound d i zero acc = inr (inr refl)
be_at_bound d i (suc n) acc = elim (byte_at_cases d i) [
  | inl (h, (v, e)) ↦ rw e (ground (arith, be_at_bound d (i + 1) n (acc * 256 + v)))
  | inr e ↦ inr (inl (rw e))
]

pub slice_bound : (d : Bytes) (i n : ℕ) → (i + n ≤ length d) ⊎ (slice d i n ≡ panicked)
unfolding slice
slice_bound d i n = ground arith

suc_add : (a b : ℕ) → suc a + b ≡ suc (a + b)
suc_add a b = omega arith

get_elem?-append :
    (front d : Bytes) (i : ℕ) → get_elem? (front ++ d) (length front + i) ≡ get_elem? d i
get_elem?-append [] d i = ap (get_elem? d) (omega arith)
get_elem?-append (b ∷ front) d i = rw (suc_add (length front) i) (get_elem?-append front d i)

drop-append : (front d : Bytes) (i : ℕ) → drop (length front + i) (front ++ d) ≡ drop i d
drop-append [] d i = ap (λ k. drop k d) (omega arith)
drop-append (b ∷ front) d i = rw (suc_add (length front) i) (drop-append front d i)

-- Reads of data that stands behind `front`.
module _ (front : Bytes) where
  pub byte_at-append : (d : Bytes) (i : ℕ) → byte_at (front ++ d) (length front + i) ≡ byte_at d i
  unfolding byte_at
  byte_at-append d i = rw (get_elem?-append front d i, byte_at)

  pub le_at-append : (d : Bytes) (i n : ℕ) → le_at (front ++ d) (length front + i) n ≡ le_at d i n
  unfolding le_at
  le_at-append d i zero = refl
  le_at-append d i (suc n) =
      simp (byte_at-append d i, add_assoc (length front) i 1, le_at-append d (i + 1) n)

  pub be_at-append :
      (d : Bytes) (i n acc : ℕ) → be_at (front ++ d) (length front + i) n acc ≡ be_at d i n acc
  unfolding be_at
  be_at-append d i zero acc = refl
  be_at-append d i (suc n) acc =
      simp (byte_at-append d i, add_assoc (length front) i 1, λ (a : ℕ). be_at-append d (i + 1) n a)

  pub slice-append : (d : Bytes) (i n : ℕ) → slice (front ++ d) (length front + i) n ≡ slice d i n
  unfolding slice
  slice-append d i n = rw (drop-append front d i) (ground (arith, length-append front d))

-- The first part of the data.
pub slice_front : (xs ys : Bytes) (k : ℕ) → k ≡ length xs → slice (xs ++ ys) 0 k ≡ done xs
unfolding slice
slice_front xs ys k e = rw (
  e,
  le→leb (0 + length xs) (length (xs ++ ys)) (omega (arith, length-append xs ys)),
  take-append xs ys,
)
