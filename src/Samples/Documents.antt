-- ===== src/Samples/Documents.antt =====
-- JSON documents and their encodings.
use mathlib.Core.List.{Perm}
use myduckserver.Base.{
  ℕ, ◌<◌, ◌%◌, false, inl, inr, List, [], ◌∷◌, ◌++◌, map, length, replicate, some, done, ◌≡◌, refl,
  arith,
}
use myduckserver.Charset.{Bytes}
use myduckserver.Binlog.Cell.{le_at}
use myduckserver.Json.{room_before, append_for_encoding, string, array}
use myduckserver.Json.Arrays.{encode_json_array}
use myduckserver.Json.Objects.{put_key, encode_json_object}
use myduckserver.Json.Values.{encode_json_value}
use myduckserver.Json.Strings.{read_string_length, encode_string-read_string_length}
use myduckserver.Json.Layout.{ArePlaced, AreKeysPlaced}
use myduckserver.Json.Layout.Arrays.{encode_json_array-ArePlaced}
use myduckserver.Json.Layout.Fields.{EncodedField, encoded_fields, keys, values}
use myduckserver.Json.Layout.Order.{IsSorted}
use myduckserver.Json.Layout.Objects.{encode_json_object-ArePlaced}
use myduckserver.Json.Layout.Literals.{nulls, encode_json_value-nulls}
use myduckserver.Json.Layout.Keys.{put_key-low_byte}

-- The string "A", and null.
abbrev elements : List (ℕ × Bytes)
elements = (12, 1 ∷ 65 ∷ []) ∷ (4, 0 ∷ []) ∷ []

encode_json_array-ArePlaced_example :
    (d : Bytes) × (encode_json_array (map done elements) false ≡ done (2, d))
    × (length d ≡ 12)
    × (le_at d 0 2 ≡ done 2)
    × (le_at d 2 2 ≡ done (length d))
    × ArePlaced false d 4 elements
encode_json_array-ArePlaced_example =
    encode_json_array-ArePlaced false elements
      ((omega arith, inl refl), ((omega arith, inr (refl, (0, omega arith, refl))), tt))
      (omega arith)

-- The keys "b" and "a".
abbrev fields : List EncodedField
fields = (98 ∷ [], (12, 1 ∷ 65 ∷ [])) ∷ (97 ∷ [], (4, 0 ∷ [])) ∷ []

encode_json_object-ArePlaced_example :
    (sorted : List EncodedField) × (d : Bytes) × Perm sorted fields
    × IsSorted sorted
    × (encode_json_object (encoded_fields fields) false ≡ done (0, d))
    × (length d ≡ 22)
    × (le_at d 0 2 ≡ done 2)
    × (le_at d 2 2 ≡ done (length d))
    × AreKeysPlaced false d 4 (keys sorted)
    × ArePlaced false d 12 (values sorted)
encode_json_object-ArePlaced_example =
    encode_json_object-ArePlaced false fields (omega arith, (omega arith, tt))
      ((omega arith, inl refl), ((omega arith, inr (refl, (0, omega arith, refl))), tt))
      (omega arith)

encode_string-read_string_length_example :
    (encoded : Bytes) × (encode_json_value (string (65 ∷ 66 ∷ [])) ≡ done (12, encoded))
    × (read_string_length (encoded ++ (7 ∷ [])) ≡ some (2, 65 ∷ 66 ∷ 7 ∷ []))
encode_string-read_string_length_example =
    encode_string-read_string_length (65 ∷ 66 ∷ []) (7 ∷ []) (omega arith)

encode_json_value-nulls_example :
    (d : Bytes) × (size : ℕ) × (encode_json_value (array (nulls 30000)) ≡ done (2, d))
    × (le_at d 2 2 ≡ done size)
    × (size < length d)
encode_json_value-nulls_example = encode_json_value-nulls 30000 (omega arith) (omega arith)

abbrev long_key : Bytes
long_key = replicate 300 97

put_key-low_byte_example : le_at (10 ∷ 0 ∷ 44 ∷ 0 ∷ []) 2 2 ≡ done (length long_key % 256)
unfolding put_key room_before append_for_encoding
put_key-low_byte_example =
    put_key-low_byte false (record { entries = []; values = []; next_offset = 10 })
      (record { entries = 10 ∷ 0 ∷ 44 ∷ 0 ∷ []; values = long_key; next_offset = 310 }) long_key
      refl
