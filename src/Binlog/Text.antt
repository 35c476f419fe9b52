-- ===== src/Binlog/Text.antt =====
-- CellValue of binlog/rbr.go at VARCHAR, CHAR, BINARY, ENUM and SET.
pub mod Contents
use myduckserver.Base.{
  ℕ, ◌+◌, ◌-◌, ◌/◌, ◌%◌, ◌^◌, Bool, true, false, ◌&&◌, ltb, ◌==◌, if◌then◌else◌, List, [], ◌∷◌,
  ◌++◌, replicate, length, done, failed, ◌>>=◌,
}
use myduckserver.Charset.{Bytes}
use myduckserver.Binlog.Cell.{
  Cell, unexpected_enum_size, enum_not_found, invalid_set, Value, binary_value, Kind, binary, utf8,
  Builder, Column, QueryType, query_varbinary, query_binary, query_blob, Externals, append_as,
  byte_at, le_at, slice, assert, or_error, decode_text,
}
use myduckserver.Binlog.Length.{max_length}

-- typeToUse: VARBINARY, BINARY and BLOB columns take the bytes as they are.
takes_bytes : QueryType → Bool
takes_bytes query_varbinary = true
takes_bytes query_binary = true
takes_bytes query_blob = true
takes_bytes _ = false

-- The size and the contents after a length in two bytes or in one.
unfoldable pub prefixed_bytes : Bytes → ℕ → ℕ → Cell (ℕ × Bytes)
prefixed_bytes d pos max =
    if ltb 255 max
    then (do l ← le_at d pos 2; src ← slice d (pos + 2) l; done (l + 2, src))
    else (do l ← byte_at d pos; src ← slice d (pos + 1) l; done (l + 1, src))

-- Decode and append as text; `n` is the number that goes with an error.
unfoldable pub append_text : Externals → Column → ℕ → Bytes → Builder → Cell Builder
append_text x col n src b = do text ← decode_text x col n src; append_as utf8 (binary_value text) b

unfoldable pub cell_varchar : Externals → Bytes → ℕ → ℕ → Column → Builder → Cell (ℕ × Builder)
unfolding takes_bytes append_text
cell_varchar x d pos m col b = do
  r ← prefixed_bytes d pos m
  b' ←
      if takes_bytes col.query_type
      then append_as binary (binary_value r.1) b
      else append_text x col r.0 r.1 b
  done (r.0, b')

-- The ordinal of an ENUM value in `l` bytes.
unfoldable pub enum_index : Bytes → ℕ → ℕ → Cell ℕ
enum_index d pos l =
    if l == 1
    then byte_at d pos
    else if l == 2
    then le_at d pos 2
    else failed (0, unexpected_enum_size)

unfoldable pub cell_enum : Bytes → ℕ → ℕ → Column → Builder → Cell (ℕ × Builder)
unfolding enum_index assert or_error
cell_enum d pos m col b = do
  idx ← enum_index d pos (m % 256)
  at ← assert col.enum_at
  val ← or_error (m % 256) enum_not_found (at idx)
  b' ← append_as utf8 (binary_value val) b
  done (m % 256, b')

-- The sum of the shifted bytes is a uint64: bytes from the ninth on are shifted out.
unfoldable pub cell_set : Bytes → ℕ → ℕ → Column → Builder → Cell (ℕ × Builder)
unfolding assert or_error
cell_set d pos m col b = do
  val ← le_at d pos (m % 256)
  bits_to_string ← assert col.set_string
  s ← or_error (m % 256) invalid_set (bits_to_string (val % 2 ^ 64))
  b' ← append_as utf8 (binary_value s) b
  done (m % 256, b')

-- A BINARY(max) value shorter than `max` is padded on the right with zero bytes.
unfoldable pub pad_binary : QueryType → ℕ → ℕ → Bytes → Bytes
pad_binary query_binary l max src = if ltb l max then src ++ replicate (max - l) 0 else src
pad_binary _ l max src = src

-- A builder of binary type takes the padded bytes; any other falls through to the text.
append_binary : Externals → Column → Kind → ℕ → Bytes → Builder → Cell Builder
append_binary x col binary n src b = append_as binary (binary_value src) b
append_binary x col _ n src b = append_text x col n src b

-- A real CHAR or BINARY.
unfoldable pub cell_char : Externals → Bytes → ℕ → ℕ → Column → Builder → Cell (ℕ × Builder)
unfolding append_text pad_binary append_binary
cell_char x d pos max col b = do
  r ← prefixed_bytes d pos max
  b' ←
      if ltb 255 max
      then append_text x col r.0 r.1 b
      else if col.is_binary
      then append_binary x col b.kind r.0 (pad_binary col.query_type (length r.1) max r.1) b
      else append_text x col r.0 r.1 b
  done (r.0, b')

-- MYSQL_TYPE_STRING, where the upper byte of the metadata tells an ENUM or a SET from a string.
unfoldable pub cell_string : Externals → Bytes → ℕ → ℕ → Column → Builder → Cell (ℕ × Builder)
unfolding cell_enum cell_set cell_char
cell_string x d pos m col b =
    if m / 2 ^ 8 == 247
    then cell_enum d pos m col b
    else if m / 2 ^ 8 == 248
    then cell_set d pos m col b
    else cell_char x d pos (max_length m) col b
