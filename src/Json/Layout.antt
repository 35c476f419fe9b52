-- ===== src/Json/Layout.antt =====
-- MySQL's layout of a binary JSON array, which its readers find the elements by: what the encoder of
-- binlogreplication/binlog_json_serialization.go has to produce. The children have the proofs.
pub mod Loop
pub mod Places
pub mod Arrays
pub mod Literals
pub mod Keys
pub mod Fields
pub mod Order
pub mod Sorted
pub mod Objects
use native.Mathlib.Nat.{add_assoc}
use mathlib.Core.List.{append_assoc, append-nil}
use myduckserver.Base.{
  ℕ, zero, suc, ◌+◌, ◌-◌, ◌*◌, ◌/◌, ◌%◌, ◌^◌, ◌≤◌, ◌<◌, ltb, ◌==◌, Bool, true, false, not, ◌&&◌,
  if◌then◌else◌, List, [], ◌∷◌, ◌++◌, map, length, All, Outcome, done, ◌>>=◌, ◌≡◌, ◌⊎◌, inl, inr,
  refl, ap, ◌∙◌, arith, length-append,
}
use myduckserver.Charset.{Bytes}
use myduckserver.Binlog.Cell.{byte_at, le_at, slice}
use myduckserver.Binlog.Cell.Reads.{byte_at-append, le_at-append, slice-append, slice_front}
use myduckserver.Binlog.Cell.Encode.{le_bytes, le_at-le_bytes}
use myduckserver.Json.{
  Encoded, JsonError, json_type_literal, max_offset_size, append_for_encoding, room_before,
  initial_array_values_offset,
}
use myduckserver.Json.Arrays.{
  Buffers, put_literal, put_offset, put_value, put_values, array_type, finish_array,
  encode_json_array,
}

-- The bytes of a count, a size or an offset, and the first number that they cannot hold.
abbrev pub width : Bool → ℕ
width large = if large then 4 else 2

abbrev pub limit : Bool → ℕ
limit large = 256 ^ width large

-- An encoded value: its type is a byte, and a literal is one byte.
abbrev pub IsEncoded : ℕ × Bytes → Type 0
IsEncoded (t, v) =
    (t < 256)
    × ((t == json_type_literal ≡ false)
        ⊎ ((t ≡ json_type_literal) × ((c : ℕ) × (c < 256) × (v ≡ c ∷ []))))

-- What stands behind the entries: every value but a literal.
abbrev pub value_of : ℕ × Bytes → Bytes
value_of (t, v) = if t == json_type_literal then [] else v

pub value_of-offset : (t : ℕ) (v : Bytes) → t == json_type_literal ≡ false → value_of (t, v) ≡ v
value_of-offset t v h = rw h refl

abbrev pub values_of : List (ℕ × Bytes) → Bytes
values_of [] = []
values_of (e ∷ es) = value_of e ++ values_of es

-- The entry of the element at `i`: a literal stands in it, and any other value at the offset that stands in it.
abbrev pub IsPlaced : Bool → Bytes → ℕ → ℕ × Bytes → Type 0
IsPlaced large d i (t, v) =
    (offset : ℕ) × (byte_at d i ≡ done t)
    × (le_at d (i + 1) (width large) ≡ done offset)
    × (if t == json_type_literal then v ≡ offset ∷ [] else slice d offset (length v) ≡ done v)

abbrev pub ArePlaced : Bool → Bytes → ℕ → List (ℕ × Bytes) → Type 0
ArePlaced large d i [] = Unit {0}
ArePlaced large d i (e ∷ es) = IsPlaced large d i e × ArePlaced large d (i + 1 + width large) es

-- The entry of a value, which stands at an offset, and the entries of more values that follow one another.
abbrev pub entry_of : Bool → ℕ → ℕ × Bytes → Bytes
entry_of large n (t, v) = t ∷ le_bytes (width large) (if t == json_type_literal then code v else n)
  where
    code : Bytes → ℕ
    code [] = 0
    code (c ∷ _) = c

abbrev pub entries_from : Bool → ℕ → List (ℕ × Bytes) → Bytes
entries_from large n [] = []
entries_from large n (e ∷ es) =
    entry_of large n e ++ entries_from large (n + length (value_of e)) es

-- The entry of the key at `i`: the offset at which the key stands, and its length in two bytes.
abbrev pub IsKeyPlaced : Bool → Bytes → ℕ → Bytes → Type 0
IsKeyPlaced large d i key =
    (offset : ℕ) × (le_at d i (width large) ≡ done offset)
    × (le_at d (i + width large) 2 ≡ done (length key))
    × (slice d offset (length key) ≡ done key)

abbrev pub AreKeysPlaced : Bool → Bytes → ℕ → List Bytes → Type 0
AreKeysPlaced large d i [] = Unit {0}
AreKeysPlaced large d i (key ∷ keys) =
    IsKeyPlaced large d i key × AreKeysPlaced large d (i + width large + 2) keys

abbrev pub key_entry : Bool → ℕ → Bytes → Bytes
key_entry large n key = le_bytes (width large) n ++ le_bytes 2 (length key)

abbrev pub keys_from : Bool → ℕ → List Bytes → Bytes
keys_from large n [] = []
keys_from large n (key ∷ keys) = key_entry large n key ++ keys_from large (n + length key) keys

abbrev pub keys_of : List Bytes → Bytes
keys_of [] = []
keys_of (key ∷ keys) = key ++ keys_of keys
