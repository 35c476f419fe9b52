-- ===== src/Json/Layout/Places.antt =====
-- Where the readers find the entries and the values.
use mathlib.Core.List.{append_assoc}
use myduckserver.Base.{
  ℕ, zero, suc, ◌+◌, ◌*◌, ◌/◌, ◌<◌, ◌==◌, Bool, true, false, List, [], ◌∷◌, ◌++◌, length, All, done,
  ◌≡◌, inl, inr, refl, ap, ap₂, ◌∙◌, arith, length-append,
}
use myduckserver.Charset.{Bytes}
use myduckserver.Binlog.Cell.{byte_at, le_at, slice}
use myduckserver.Binlog.Cell.Reads.{byte_at-append, le_at-append, slice-append, slice_front}
use myduckserver.Binlog.Cell.Encode.{le_bytes, le_at-le_bytes}
use myduckserver.Json.{json_type_literal}
use myduckserver.Json.Layout.{
  width, limit, IsEncoded, value_of, values_of, IsPlaced, ArePlaced, entry_of, entries_from,
  value_of-offset,
}

-- The readers at the end of `front`.
module _ (front rest : Bytes) where
  byte_at_behind : (b : ℕ) → byte_at (front ++ (b ∷ rest)) (length front) ≡ done b
  unfolding byte_at
  byte_at_behind b =
      let z : length front ≡ length front + 0 = omega arith in
      ap (byte_at (front ++ (b ∷ rest))) z ∙ byte_at-append front (b ∷ rest) 0

  le_at_behind :
      (large : Bool) (t n : ℕ)
      → n < limit large
      → le_at (front ++ (t ∷ (le_bytes (width large) n ++ rest))) (length front + 1) (width large)
        ≡ done n
  le_at_behind large t n h =
      le_at-append front (t ∷ (le_bytes (width large) n ++ rest)) 1 (width large)
      ∙ le_at-append (t ∷ []) (le_bytes (width large) n ++ rest) 0 (width large)
      ∙ le_at-le_bytes (width large) n rest h

  pub slice_behind : (v : Bytes) → slice (front ++ (v ++ rest)) (length front) (length v) ≡ done v
  slice_behind v =
      let z : length front ≡ length front + 0 = omega arith in
      ap (λ k. slice (front ++ (v ++ rest)) k (length v)) z
      ∙ slice-append front (v ++ rest) 0 (length v)
      ∙ slice_front v rest (length v) refl

-- Data in which the entries of `es` stand behind `front`, and the values behind `before`.
pub record Holds (large : Bool) (d front before : Bytes) (es : List (ℕ × Bytes)) : Type 0 where
  pub after_entries : Bytes
  pub after_values : Bytes
  pub entries_held : d ≡ front ++ (entries_from large (length before) es ++ after_entries)
  pub values_held : d ≡ before ++ (values_of es ++ after_values)

Holds-next :
    (large : Bool) (d front before : Bytes) (e : ℕ × Bytes) (es : List (ℕ × Bytes))
    → Holds large d front before (e ∷ es)
    → Holds large d (front ++ entry_of large (length before) e) (before ++ value_of e) es
Holds-next large d front before e es h = record {
  after_entries = h.after_entries;
  after_values = h.after_values;
  entries_held = h.entries_held ∙ simp (length-append before (value_of e), append_assoc);
  values_held = h.values_held ∙ simp append_assoc;
}

entry_read :
    (large : Bool) (d front entries rest : Bytes) (t n : ℕ)
    → n < limit large
    → d ≡ front ++ (t ∷ le_bytes (width large) n ++ entries ++ rest)
    → (byte_at d (length front) ≡ done t) × (le_at d (length front + 1) (width large) ≡ done n)
entry_read large d front entries rest t n h e =
    let f : d ≡ front ++ (t ∷ (le_bytes (width large) n ++ (entries ++ rest))) =
      e ∙ simp append_assoc in
    (
      ap (λ d. byte_at d (length front)) f ∙ byte_at_behind front _ t,
      ap (λ d. le_at d (length front + 1) (width large)) f
          ∙ le_at_behind front (entries ++ rest) large t n h,
    )

IsPlaced-literal :
    (large : Bool) (d front before : Bytes) (c : ℕ) (es : List (ℕ × Bytes))
    → c < 256
    → Holds large d front before ((4, c ∷ []) ∷ es)
    → IsPlaced large d (length front) (4, c ∷ [])
IsPlaced-literal large d front before c es h k =
    let (t, w) =
      entry_read large d front (entries_from large (length before + 0) es) k.after_entries 4 c
        (below large) k.entries_held in
    (c, t, w, refl)
  where
    below : (large : Bool) → c < limit large
    below true = omega arith
    below false = omega arith

IsPlaced-offset :
    (large : Bool) (d front before : Bytes) (t : ℕ) (v : Bytes) (es : List (ℕ × Bytes))
    → t == json_type_literal ≡ false
    → length before < limit large
    → Holds large d front before ((t, v) ∷ es)
    → IsPlaced large d (length front) (t, v)
IsPlaced-offset large d front before t v es h p k =
    let n = length before in
    let entries = entries_from large (n + length (value_of (t, v))) es in
    let (r, w) =
      entry_read large d front entries k.after_entries t n p (k.entries_held ∙ rw h refl) in
    let held : d ≡ before ++ (v ++ (values_of es ++ k.after_values)) =
      k.values_held
      ∙ ap (λ x. before ++ (x ++ values_of es ++ k.after_values)) (value_of-offset t v h)
      ∙ simp append_assoc in
    (
      n,
      r,
      w,
      rw h (
          ap (λ d. slice d n (length v)) held
          ∙ slice_behind before (values_of es ++ k.after_values) v),
    )

IsPlaced-first :
    (large : Bool) (d front before : Bytes) (e : ℕ × Bytes) (es : List (ℕ × Bytes))
    → IsEncoded e
    → length before < limit large
    → Holds large d front before (e ∷ es)
    → IsPlaced large d (length front) e
IsPlaced-first large d front before (t, v) es (_, inl h) p k =
    IsPlaced-offset large d front before t v es h p k
IsPlaced-first large d front before (t, v) es (_, inr (h, (c, q, x))) p k = placed k
  where
    placed : Holds large d front before ((t, v) ∷ es) → IsPlaced large d (length front) (t, v)
    placed = rw (h, x) (IsPlaced-literal large d front before c es q)

pub length-le_bytes : (w n : ℕ) → length (le_bytes w n) ≡ w
length-le_bytes zero n = refl
length-le_bytes (suc w) n = ap suc (length-le_bytes w (n / 256))

-- The two numbers of a header.
pub length-numbers :
    (large : Bool) (n m : ℕ)
    → length (le_bytes (width large) n ++ le_bytes (width large) m) ≡ 2 * width large
length-numbers large n m = omega (
  arith,
  length-append (le_bytes (width large) n) (le_bytes (width large) m),
  length-le_bytes (width large) n,
  length-le_bytes (width large) m,
)

-- The two numbers are read back.
pub header_read :
    (large : Bool) (n m : ℕ) (d body : Bytes)
    → n < limit large
    → m < limit large
    → d ≡ le_bytes (width large) n ++ (le_bytes (width large) m ++ body)
    → (le_at d 0 (width large) ≡ done n) × (le_at d (width large) (width large) ≡ done m)
header_read large n m d body h k e =
    let w = width large in
    let first = le_bytes w n in
    let i : w ≡ length first + 0 = omega (arith, length-le_bytes w n) in
    (
      ap (λ d. le_at d 0 w) e ∙ le_at-le_bytes w n (le_bytes w m ++ body) h,
      ap₂ (λ d i. le_at d i w) e i
          ∙ le_at-append first (le_bytes w m ++ body) 0 w
          ∙ le_at-le_bytes w m body k,
    )

length-entry_of :
    (large : Bool) (n : ℕ) (front : Bytes) (e : ℕ × Bytes)
    → length (front ++ entry_of large n e) ≡ length front + 1 + width large
length-entry_of large n front e =
    omega (arith, length-append front (entry_of large n e), length-le_bytes (width large) _)

pub Holds-ArePlaced :
    (large : Bool) (d front before : Bytes) (es : List (ℕ × Bytes))
    → All IsEncoded es
    → length before + length (values_of es) < limit large
    → Holds large d front before es
    → ArePlaced large d (length front) es
Holds-ArePlaced large d front before [] h p k = tt
Holds-ArePlaced large d front before (e ∷ es) (h, hs) p k = (
  IsPlaced-first large d front before e es h (omega arith) k,
  rw (← length-entry_of large (length before) front e) (
      Holds-ArePlaced large d (front ++ entry_of large (length before) e) (before ++ value_of e) es
        hs
        (omega
          (arith, length-append before (value_of e), length-append (value_of e) (values_of es)))
        (Holds-next large d front before e es k)),
)
