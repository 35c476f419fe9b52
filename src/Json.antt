-- ===== src/Json.antt =====
-- binlogreplication/binlog_json_serialization.go: MySQL's binary encoding of JSON documents. This file has
-- the documents and the numbers of the format; the children have the encoders of arrays, objects and values.
--
-- A document is what ToInterface returns. A string of Go is its bytes, a float64 its bit pattern. A map is a
-- list of fields whose keys differ. An `int` of Go has 64 bits; no length here comes near its bounds.
pub mod Arrays
pub mod Objects
pub mod Values
pub mod Strings
pub mod Layout
use myduckserver.Base.{
  ℕ, ◌+◌, ◌-◌, ◌*◌, ◌/◌, ◌%◌, ◌^◌, ltb, Bool, true, false, if◌then◌else◌, List, [], ◌∷◌, ◌++◌,
  Outcome, done, failed,
}
use myduckserver.Charset.{Bytes}

mutual
  pub data JsonValue : Type 0 where
    null : JsonValue
    boolean : Bool → JsonValue
    string : Bytes → JsonValue
    number : ℕ → JsonValue
    array : Items → JsonValue
    object : Fields → JsonValue
    other_value : JsonValue

  pub data Items : Type 0 where
    no_items : Items
    item : JsonValue → Items → Items

  pub data Fields : Type 0 where
    no_fields : Fields
    field : Bytes → JsonValue → Fields → Fields

pub data JsonError : Type 0 where
  too_many_elements unexpected_buffer_length offset_too_large string_too_long unexpected_type :
      JsonError

-- A type identifier and the encoded bytes, or an error.
abbrev pub Encoded : Type 0
Encoded = Outcome JsonError (ℕ × Bytes)

abbrev pub json_type_literal : ℕ
json_type_literal = 4

-- maxOffsetSize
abbrev pub max_offset_size : ℕ
max_offset_size = 65535

-- maxOffsetSize - uint32(n), in uint32 arithmetic
unfoldable pub room_before : ℕ → ℕ
room_before n = (max_offset_size + 2 ^ 32 - n % 2 ^ 32) % 2 ^ 32

-- appendForEncoding
unfoldable pub append_for_encoding : Bytes → ℕ → Bool → Bytes
append_for_encoding bytes value false = bytes ++ (value % 256 ∷ value / 2 ^ 8 % 256 ∷ [])
append_for_encoding bytes value true =
    bytes ++ (value % 256 ∷ value / 2 ^ 8 % 256 ∷ value / 2 ^ 16 % 256 ∷ value / 2 ^ 24 % 256 ∷ [])

-- appendStringLength: `x & 0x7F | 0x80` is `x % 128 + 128`.
unfoldable pub append_string_length : Bytes → ℕ → Outcome JsonError Bytes
append_string_length bytes length =
    if ltb 0x1FFFFF length
    then failed string_too_long
    else if ltb 0x3FFF length
    then done (
        bytes ++ ((length % 128 + 128) ∷ (length / 2 ^ 7 % 128 + 128) ∷ length / 2 ^ 14 % 256 ∷ []))
    else if ltb 0x7F length
    then done (bytes ++ ((length % 128 + 128) ∷ length / 2 ^ 7 % 256 ∷ []))
    else done (bytes ++ (length % 256 ∷ []))

-- calculateInitialArrayValuesOffset
unfoldable pub initial_array_values_offset : ℕ → Bool → ℕ
initial_array_values_offset n false = (2 + 2 + n * 3) % 2 ^ 32
initial_array_values_offset n true = (4 + 4 + n * 5) % 2 ^ 32

-- calculateInitialObjectKeysOffset
unfoldable pub initial_object_keys_offset : ℕ → Bool → ℕ
initial_object_keys_offset n false = (2 + 2 + n * 4 + n * 3) % 2 ^ 32
initial_object_keys_offset n true = (4 + 4 + n * 6 + n * 5) % 2 ^ 32
