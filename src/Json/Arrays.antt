-- ===== src/Json/Arrays.antt =====
-- encodeJsonArray of binlogreplication/binlog_json_serialization.go, on elements that encodeJsonValue has encoded.
use myduckserver.Base.{
  ℕ, ◌+◌, ◌%◌, ◌^◌, ltb, ◌==◌, Bool, not, ◌&&◌, if◌then◌else◌, List, [], ◌∷◌, ◌++◌, length, Outcome,
  done, failed, ◌>>=◌,
}
use myduckserver.Charset.{Bytes}
use myduckserver.Json.{
  Encoded, JsonError, too_many_elements, unexpected_buffer_length, offset_too_large,
  json_type_literal, max_offset_size, room_before, append_for_encoding, initial_array_values_offset,
}

-- The two buffers that a loop over the elements fills, and the offset behind the second.
pub record Buffers : Type 0 where
  pub entries : Bytes
  pub values : Bytes
  pub next_offset : ℕ

unfoldable pub put_literal : Bool → Buffers → Bytes → Outcome JsonError Buffers
put_literal large b (code ∷ []) =
    done (record b {
      entries = append_for_encoding (b.entries ++ (json_type_literal ∷ [])) code large;
    })
put_literal large b _ = failed unexpected_buffer_length

unfoldable pub put_offset : Bool → Buffers → ℕ → Bytes → Outcome JsonError Buffers
put_offset large b type_id encoded =
    if not large && ltb (room_before (length encoded)) b.next_offset
    then failed offset_too_large
    else done (record {
      entries = append_for_encoding (b.entries ++ (type_id ∷ [])) b.next_offset large;
      values = b.values ++ encoded;
      next_offset = (b.next_offset + length encoded) % 2 ^ 32;
    })

unfoldable pub put_value : Bool → Buffers → ℕ × Bytes → Outcome JsonError Buffers
put_value large b (type_id, encoded) =
    if type_id == json_type_literal
    then put_literal large b encoded
    else put_offset large b type_id encoded

-- The loop over the elements of an array, and over the values of an object.
unfoldable pub put_values : Bool → Buffers → List Encoded → Outcome JsonError Buffers
put_values large b [] = done b
put_values large b (e ∷ es) = do v ← e; b' ← put_value large b v; put_values large b' es

abbrev pub array_type : Bool → ℕ
array_type large = if large then 3 else 2

-- The header in front of the buffers.
unfoldable pub finish_array : Bool → ℕ → Buffers → Bytes
finish_array large n b =
    append_for_encoding (append_for_encoding [] (n % 2 ^ 32) large) b.next_offset large
    ++ b.entries
    ++ b.values

unfoldable pub encode_json_array : List Encoded → Bool → Encoded
encode_json_array es large =
    if not large && ltb max_offset_size (length es)
    then failed too_many_elements
    else put_values large
        (record {
          entries = [];
          values = [];
          next_offset = initial_array_values_offset (length es) large;
        })
        es
      >>= λ b. done (array_type large, finish_array large (length es) b)
