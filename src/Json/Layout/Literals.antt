-- ===== src/Json/Layout/Literals.antt =====
-- Arrays of literals only, which the test of the offsets does not see.
use mathlib.Core.List.{append_assoc, append-nil}
use myduckserver.Base.{
  ℕ, zero, suc, ◌+◌, ◌*◌, ◌%◌, ◌/◌, ◌^◌, ◌≤◌, ◌<◌, ltb, false, [], ◌∷◌, ◌++◌, length, replicate,
  length-replicate, done, ◌≡◌, refl, ap, ◌∙◌, arith, length-append,
}
use myduckserver.Charset.{Bytes}
use myduckserver.Binlog.Cell.{byte_at, le_at}
use myduckserver.Json.{
  null, array, Items, no_items, item, Encoded, max_offset_size, append_for_encoding,
  initial_array_values_offset,
}
use myduckserver.Json.Arrays.{
  Buffers, put_literal, put_value, put_values, finish_array, encode_json_array,
}
use myduckserver.Json.Values.{encode_json_value, encode_items, or_large}

abbrev pub nulls : ℕ → Items
nulls zero = no_items
nulls (suc n) = item null (nulls n)

encode_items-nulls : (n : ℕ) → encode_items (nulls n) ≡ replicate n (done (4, 0 ∷ []))
unfolding encode_json_value
encode_items-nulls zero = refl
encode_items-nulls (suc n) = ap (λ es. done (4, 0 ∷ []) ∷ es) (encode_items-nulls n)

-- Each literal adds an entry of three bytes, and neither a value nor a step of the offset.
put_values-literals :
    (n : ℕ) (b : Buffers)
    → (entries : Bytes) × (put_values false b (replicate n (done (4, 0 ∷ [])))
        ≡ done (record b { entries = b.entries ++ entries }))
      × (length entries ≡ 3 * n)
unfolding put_values put_value put_literal append_for_encoding
put_values-literals zero b = ([], simp append-nil, omega arith)
put_values-literals (suc n) b =
    let b' : Buffers = record b { entries = b.entries ++ (4 ∷ []) ++ (0 ∷ 0 ∷ []) } in
    let (rest, e, l) = put_values-literals n b' in
    (4 ∷ 0 ∷ 0 ∷ rest, e ∙ simp append_assoc, omega (arith, l))

-- The bytes of the header, from the number of elements and the offset behind the entries.
abbrev with_header : ℕ → ℕ → Bytes → Bytes
with_header n offset entries =
    n % 256 ∷ n / 2 ^ 8 % 256 ∷ offset % 256 ∷ offset / 2 ^ 8 % 256 ∷ (entries ++ [])

encode_json_array-literals :
    (n : ℕ) (entries : Bytes)
    → n ≤ 65535
    → put_values false
        (record { entries = []; values = []; next_offset = 2 + 2 + n * 3 })
        (replicate n (done (4, 0 ∷ [])))
      ≡ done (record { entries = entries; values = []; next_offset = 2 + 2 + n * 3 })
    → encode_json_array (replicate n (done (4, 0 ∷ []))) false
      ≡ done (2, with_header n (2 + 2 + n * 3) entries)
unfolding encode_json_array finish_array append_for_encoding initial_array_values_offset
encode_json_array-literals n entries h e =
    let guard : ltb max_offset_size n ≡ false = ground arith in
    let wrap : n % 2 ^ 32 ≡ n = omega arith in
    let start : (2 + 2 + n * 3) % 2 ^ 32 ≡ 2 + 2 + n * 3 = omega arith in
    rw (length-replicate {A = Encoded} n (done (4, 0 ∷ [])), guard, start, e, wrap) refl

-- An array of 21,844 to 65,535 nulls takes the small encoding, and the two bytes that hold its size hold less
-- than the size that it has.
pub encode_json_value-nulls :
    (n : ℕ)
    → 21844 ≤ n
    → n ≤ 65535
    → (d : Bytes) × (size : ℕ) × (encode_json_value (array (nulls n)) ≡ done (2, d))
      × (le_at d 2 2 ≡ done size)
      × (size < length d)
unfolding encode_json_value or_large le_at byte_at
encode_json_value-nulls n h k =
    let offset = 2 + 2 + n * 3 in
    let (entries, e, l) =
      put_values-literals n (record { entries = []; values = []; next_offset = offset }) in
    (
      with_header n offset entries,
      offset % 256 + 256 * (offset / 2 ^ 8 % 256 + 256 * 0),
      rw (encode_items-nulls n, encode_json_array-literals n entries k e) refl,
      refl,
      omega (arith, l, length-append entries []),
    )
