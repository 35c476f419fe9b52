-- ===== src/Json/Values.antt =====
-- encodeJsonValue and encodeJsonDoc of binlogreplication/binlog_json_serialization.go.
use myduckserver.Base.{
  ℕ, ◌/◌, ◌%◌, ◌^◌, true, false, List, [], ◌∷◌, ◌++◌, length, Option, none, some, Outcome, done,
  failed, panicked, ◌>>=◌,
}
use myduckserver.Charset.{Bytes}
use myduckserver.Json.{
  JsonValue, null, boolean, string, number, array, object, other_value, Items, no_items, item,
  Fields, no_fields, field, JsonError, Encoded, json_type_literal, unexpected_type,
  append_string_length,
}
use myduckserver.Json.Arrays.{encode_json_array}
use myduckserver.Json.Objects.{encode_json_object}

-- binary.LittleEndian.PutUint64
abbrev pub put_uint64 : ℕ → Bytes
put_uint64 v =
    v % 256
    ∷ v / 2 ^ 8 % 256
    ∷ v / 2 ^ 16 % 256
    ∷ v / 2 ^ 24 % 256
    ∷ v / 2 ^ 32 % 256
    ∷ v / 2 ^ 40 % 256
    ∷ v / 2 ^ 48 % 256
    ∷ v / 2 ^ 56 % 256
    ∷ []

-- The small encoding, and the large one where that is an error.
unfoldable pub or_large : Encoded → Encoded → Encoded
or_large (done e) large = done e
or_large (failed _) large = large
or_large panicked large = panicked

unfoldable pub encode_string : Bytes → Encoded
encode_string v = do buffer ← append_string_length [] (length v); done (0x0c, buffer ++ v)

-- The elements are encoded once here: what encodeJsonValue makes of one does not depend on the encoding that
-- is tried. An error of an element is returned where the loop comes to it.
unfoldable mutual
  pub encode_json_value : JsonValue → Encoded
  encode_json_value null = done (json_type_literal, 0 ∷ [])
  encode_json_value (boolean true) = done (json_type_literal, 1 ∷ [])
  encode_json_value (boolean false) = done (json_type_literal, 2 ∷ [])
  encode_json_value (string v) = encode_string v
  encode_json_value (number bits) = done (0x0b, put_uint64 bits)
  encode_json_value (array xs) =
      let es = encode_items xs in or_large (encode_json_array es false) (encode_json_array es true)
  encode_json_value (object fs) =
      let es = encode_fields fs in
      or_large (encode_json_object es false) (encode_json_object es true)
  encode_json_value other_value = failed unexpected_type

  pub encode_items : Items → List Encoded
  encode_items no_items = []
  encode_items (item v xs) = encode_json_value v ∷ encode_items xs

  pub encode_fields : Fields → List (Bytes × Encoded)
  encode_fields no_fields = []
  encode_fields (field k v fs) = (k, encode_json_value v) ∷ encode_fields fs

-- encodeJsonDoc; `none` is an error of ToInterface.
unfoldable pub encode_json_doc : Option JsonValue → Outcome (Option JsonError) Bytes
unfolding encode_json_value
encode_json_doc none = failed none
encode_json_doc (some v) = elim (encode_json_value v) [
  | done (type_id, encoded) ↦ done (type_id ∷ encoded)
  | failed e ↦ failed (some e)
  | panicked ↦ panicked
]
