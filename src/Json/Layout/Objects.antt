-- ===== src/Json/Layout/Objects.antt =====
-- The layout of an encoded object.
use mathlib.Core.Path.{subst}
use mathlib.Core.List.{append_assoc, append-nil, Perm}
use myduckserver.Base.{
  ℕ, ◌+◌, ◌*◌, ◌%◌, ◌^◌, ◌≤◌, ◌<◌, Bool, true, false, List, [], ◌++◌, length, All, done, ◌≡◌, sym,
  ap, ap₂, ◌∙◌, arith, length-append,
}
use myduckserver.Charset.{Bytes}
use myduckserver.Binlog.Cell.{le_at}
use myduckserver.Binlog.Cell.Encode.{le_bytes}
use myduckserver.Json.Arrays.{Buffers}
use myduckserver.Json.{initial_object_keys_offset}
use myduckserver.Json.Objects.{
  sort_keys, object_type, finish_object, encode_sorted, encode_json_object,
}
use myduckserver.Json.Layout.{
  width, limit, IsEncoded, values_of, entries_from, ArePlaced, AreKeysPlaced, keys_from, keys_of,
}
use myduckserver.Json.Layout.Loop.{put_all, put_values-put_all, append_for_encoding-le_bytes}
use myduckserver.Json.Layout.Places.{Holds-ArePlaced, length-numbers, header_read}
use myduckserver.Json.Layout.Keys.{
  IsShort, put_all_keys, put_keys-put_all_keys, length-keys_from, AreKeysPlaced-keys_from,
}
use myduckserver.Json.Layout.Order.{IsSorted, sort_keys_lem}
use myduckserver.Json.Layout.Sorted.{sort_keys-Measures, sort_keys-Both}
use myduckserver.Json.Layout.Fields.{
  EncodedField, encoded_fields, keys, values, sort_keys-encoded_fields, length-encoded_fields,
  length-keys, length-values, map-keys, map-values,
}
use myduckserver.Json.Layout.Arrays.{length-entries_from}

-- Two numbers and the entries, before the keys.
abbrev pub keys_offset : Bool → ℕ → ℕ
keys_offset large n = 2 * width large + (width large + 2) * n + (1 + width large) * n

abbrev pub object_length : Bool → List EncodedField → ℕ
object_length large fs =
    keys_offset large (length fs) + length (keys_of (keys fs)) + length (values_of (values fs))

count_le : (large : Bool) (fs : List EncodedField) → length fs ≤ object_length large fs
count_le true fs = omega arith
count_le false fs = omega arith

start_of_keys :
    (large : Bool) (n : ℕ)
    → keys_offset large n < limit large
    → (n % 2 ^ 32 ≡ n) × (initial_object_keys_offset n large ≡ keys_offset large n)
unfolding initial_object_keys_offset
start_of_keys true n h = (omega arith, omega arith)
start_of_keys false n h = (omega arith, omega arith)

module _ (large : Bool) (fs : List EncodedField) (short : All IsShort (keys fs))
    (h : All IsEncoded (values fs)) (p : object_length large fs < limit large) where
  abbrev offset : ℕ
  offset = keys_offset large (length fs)

  abbrev values_offset : ℕ
  values_offset = offset + length (keys_of (keys fs))

  abbrev header : Bytes
  header = le_bytes (width large) (length fs) ++ le_bytes (width large) (object_length large fs)

  abbrev encoded : Bytes
  encoded =
      header
      ++ keys_from large offset (keys fs)
      ++ entries_from large values_offset (values fs)
      ++ keys_of (keys fs)
      ++ values_of (values fs)

  encode_sorted-encoded :
      encode_sorted (encoded_fields fs) large ≡ done (object_type large, encoded)
  unfolding encode_sorted put_all put_all_keys finish_object
  encode_sorted-encoded =
      let (wrap, start) = start_of_keys large (length fs) (omega arith) in
      let b : Buffers = record { entries = []; values = []; next_offset = offset } in
      let c : Buffers = record { entries = []; values = []; next_offset = values_offset } in
      rw
        (
          length-encoded_fields fs,
          map-keys fs,
          map-values fs,
          start,
          put_keys-put_all_keys large b (keys fs) short (omega arith),
          put_values-put_all large c (values fs) h p,
          wrap,
        )
        (simp (append_for_encoding-le_bytes, append_assoc))

  length-before :
      length (header ++ keys_from large offset (keys fs))
      ≡ 2 * width large + (width large + 2) * length fs
  length-before =
      length-append header (keys_from large offset (keys fs))
      ∙ ap₂ (λ a b. a + b) (length-numbers large (length fs) (object_length large fs))
          (length-keys_from large offset (keys fs)
            ∙ ap (λ n. (width large + 2) * n) (length-keys fs))

  length-offset :
      length
        (header ++ keys_from large offset (keys fs) ++ entries_from large values_offset (values fs))
      ≡ offset
  length-offset =
      length-append (header ++ keys_from large offset (keys fs))
        (entries_from large values_offset (values fs))
      ∙ ap₂ (λ a b. a + b) length-before
          (length-entries_from large values_offset (values fs)
            ∙ ap (λ n. (1 + width large) * n) (length-values fs))

  length-values_offset :
      length (
        header
        ++ keys_from large offset (keys fs)
        ++ entries_from large values_offset (values fs)
        ++ keys_of (keys fs))
      ≡ values_offset
  length-values_offset =
      length-append
        (header ++ keys_from large offset (keys fs) ++ entries_from large values_offset (values fs))
        (keys_of (keys fs))
      ∙ ap (λ n. n + length (keys_of (keys fs))) length-offset

  length-encoded : length encoded ≡ object_length large fs
  length-encoded =
      length-append
        (header
          ++ keys_from large offset (keys fs)
          ++ entries_from large values_offset (values fs)
          ++ keys_of (keys fs))
        (values_of (values fs))
      ∙ ap (λ n. n + length (values_of (values fs))) length-values_offset

  encoded-AreKeysPlaced : AreKeysPlaced large encoded (2 * width large) (keys fs)
  encoded-AreKeysPlaced =
      subst (λ i. AreKeysPlaced large encoded i (keys fs))
        (length-numbers large (length fs) (object_length large fs))
        (AreKeysPlaced-keys_from large encoded header
          (header
            ++ keys_from large offset (keys fs)
            ++ entries_from large values_offset (values fs))
          (entries_from large values_offset (values fs)
            ++ keys_of (keys fs)
            ++ values_of (values fs))
          (values_of (values fs)) (keys fs) short (omega (arith, length-offset))
          (rw length-offset (simp append_assoc)) (simp append_assoc))

  encoded-ArePlaced :
      ArePlaced large encoded (2 * width large + (width large + 2) * length fs) (values fs)
  encoded-ArePlaced =
      subst (λ i. ArePlaced large encoded i (values fs)) length-before
        (Holds-ArePlaced large encoded (header ++ keys_from large offset (keys fs))
          (header
            ++ keys_from large offset (keys fs)
            ++ entries_from large values_offset (values fs)
            ++ keys_of (keys fs))
          (values fs) h (omega (arith, length-values_offset))
          (record {
            after_entries = keys_of (keys fs) ++ values_of (values fs);
            after_values = [];
            entries_held = rw length-values_offset (simp append_assoc);
            values_held = simp (append-nil, append_assoc);
          }))

  encoded-header :
      (le_at encoded 0 (width large) ≡ done (length fs))
      × (le_at encoded (width large) (width large) ≡ done (length encoded))
  encoded-header =
      let body =
        keys_from large offset (keys fs)
        ++ entries_from large values_offset (values fs)
        ++ keys_of (keys fs)
        ++ values_of (values fs) in
      let (count, size) =
        header_read large (length fs) (object_length large fs) encoded body
          (omega (arith, count_le large fs)) p (simp append_assoc) in
      (count, size ∙ ap done (sym length-encoded))

-- Where the values of an object are encoded, its keys are shorter than 256 bytes, and the header, the entries,
-- the keys and the values together are below the limit of the encoding, the object is encoded in as many bytes
-- as that, and a reader of MySQL's format finds all of its fields, in the order of the bytes of the keys: the number
-- of fields, the size, each key at the offset and with the length of its entry, and for each value its type with the
-- literal or the offset at which its bytes stand. MySQL itself orders keys by their length first.
pub encode_json_object-ArePlaced :
    (large : Bool) (fs : List EncodedField)
    → All IsShort (keys fs)
    → All IsEncoded (values fs)
    → object_length large fs < limit large
    → (sorted : List EncodedField) × (d : Bytes) × Perm sorted fs
      × IsSorted sorted
      × (encode_json_object (encoded_fields fs) large ≡ done (object_type large, d))
      × (length d ≡ object_length large fs)
      × (le_at d 0 (width large) ≡ done (length fs))
      × (le_at d (width large) (width large) ≡ done (length d))
      × AreKeysPlaced large d (2 * width large) (keys sorted)
      × ArePlaced large d (2 * width large + (width large + 2) * length fs) (values sorted)
unfolding encode_json_object
encode_json_object-ArePlaced large fs short h p =
    let sorted = sort_keys fs in
    let perm : Perm sorted fs = (sort_keys_lem fs).1 in
    let (count, key_bytes, value_bytes) = sort_keys-Measures fs in
    let (short', h') = sort_keys-Both fs (short, h) in
    let size : object_length large sorted ≡ object_length large fs =
      ap₂ (λ a b. a + b) (ap₂ (λ a b. a + b) (ap (keys_offset large) count) key_bytes)
        value_bytes in
    let p' : object_length large sorted < limit large = omega (arith, size) in
    (
      sorted,
      encoded large sorted short' h' p',
      perm,
      (sort_keys_lem fs).0,
      rw (sort_keys-encoded_fields fs) (encode_sorted-encoded large sorted short' h' p'),
      length-encoded large sorted short' h' p' ∙ size,
      (encoded-header large sorted short' h' p').0 ∙ ap done count,
      (encoded-header large sorted short' h' p').1,
      encoded-AreKeysPlaced large sorted short' h' p',
      subst
          (λ n.
            ArePlaced large (encoded large sorted short' h' p')
              (2 * width large + (width large + 2) * n) (values sorted))
          count (encoded-ArePlaced large sorted short' h' p'),
    )
