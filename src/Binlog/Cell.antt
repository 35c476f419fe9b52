-- ===== src/Binlog/Cell.antt =====
-- What a cell decoder of binlog/rbr.go reads and writes: the bytes of the event, the column's type,
-- and the Arrow builder that takes the value.
--
-- The data of a cell is a list of bytes, a slice whose capacity is its length, so an index or a slice beyond the end
-- panics. Where Go's slice has more capacity, as a part of a larger buffer has, d[i : i+n] up to that capacity takes
-- the bytes behind the data and does not panic; a read within the data is the same. Bytes that the source joins by shifts and `|` or `+` are joined here by `*` and `+`.
pub mod Reads
pub mod Encode
use myduckserver.Base.{
  ℕ, zero, suc, ◌+◌, ◌*◌, Bool, ◌==◌, leb, if◌then◌else◌, Option, none, some, List, [], ◌∷◌, ◌++◌,
  length, get_elem?, take, drop, Outcome, done, failed, panicked, ◌>>=◌,
}
use myduckserver.Base.Int.{ℤ}
use myduckserver.Charset.{CharacterSet, Codecs, Bytes, decode_bytes}

pub data CellError : Type 0 where
  unsupported_type unsupported_blob unsupported_geometry unexpected_builder : CellError
  unexpected_enum_size enum_not_found invalid_set fractional_digits decode_error : CellError

-- `return n, err` carries the number beside the error. No error path appends a value.
abbrev pub Cell {ℓ} : Type ℓ → Type ℓ
Cell A = Outcome (ℕ × CellError) A

-- The arguments of the Go calls time.Date and time.Unix, before they normalise them.
pub data Time : Type 0 where
  date_utc : ℕ → ℕ → ℕ → ℕ → ℕ → ℕ → ℕ → Time
  unix : ℕ → ℕ → Time

-- The values that the decoders append. A float is its bit pattern; a decimal is
-- the sign and the unscaled coefficient.
pub data Value : Type 0 where
  int : ℤ → Value
  uint : ℕ → Value
  float_bits : ℕ → Value
  at_time : Time → Value
  micros : ℤ → Value
  binary_value : Bytes → Value
  decimal_value : Bool → ℕ → Value

-- The Arrow builders that the decoders name, and any other.
pub data Kind : Type 0 where
  int8 uint8 int16 uint16 int32 uint32 int64 uint64 float32 float64 : Kind
  date32 timestamp_us duration binary utf8 decimal128 decimal256 other_builder : Kind

unfoldable pub kind_code : Kind → ℕ
kind_code int8 = 0
kind_code uint8 = 1
kind_code int16 = 2
kind_code uint16 = 3
kind_code int32 = 4
kind_code uint32 = 5
kind_code int64 = 6
kind_code uint64 = 7
kind_code float32 = 8
kind_code float64 = 9
kind_code date32 = 10
kind_code timestamp_us = 11
kind_code duration = 12
kind_code binary = 13
kind_code utf8 = 14
kind_code decimal128 = 15
kind_code decimal256 = 16
kind_code other_builder = 17

-- `decimal_scale` is the scale of the builder's type where that is a decimal type.
pub record Builder : Type 0 where
  pub kind : Kind
  pub decimal_scale : Option ℕ
  pub items : List Value

-- querypb.Type as far as the decoders compare it
pub data QueryType : Type 0 where
  query_varbinary query_binary query_blob query_json query_other : QueryType

-- What the decoders ask of sql.Column: the facts about its type, and the methods of the types that
-- it may be asserted to be (`none`: the assertion panics).
pub record Column : Type 0 where
  pub query_type : QueryType
  pub is_signed : Bool
  pub is_binary : Bool
  pub charset : Option CharacterSet
  pub enum_at : Option (ℕ → Option Bytes)
  pub set_string : Option (ℕ → Option Bytes)

-- Third-party code: the character set codecs, and the two JSON parsers with MarshalTo.
pub record Externals : Type 0 where
  pub codecs : Codecs
  pub json_binary : Bytes → Option Bytes
  pub json_text : Bytes → Option Bytes

-- builder.(*array.T).Append(v)
unfoldable pub append_as : Kind → Value → Builder → Cell Builder
unfolding kind_code
append_as k v b =
    if kind_code b.kind == kind_code k
    then done (record b { items = b.items ++ (v ∷ []) })
    else panicked

-- d[i]
unfoldable pub byte_at : Bytes → ℕ → Cell ℕ
byte_at d i = elim (get_elem? d i) [ none ↦ panicked | some b ↦ done b ]

-- d[i : i+n], for data without capacity beyond its length
unfoldable pub slice : Bytes → ℕ → ℕ → Cell Bytes
slice d i n = if leb (i + n) (length d) then done (take n (drop i d)) else panicked

-- The `n` bytes at `i`, the lowest first: also binary.LittleEndian.UintN(d[i : i+n]), for data without capacity
-- beyond its length.
unfoldable pub le_at : Bytes → ℕ → ℕ → Cell ℕ
unfolding byte_at
le_at d i zero = done 0
le_at d i (suc n) = do b ← byte_at d i; r ← le_at d (i + 1) n; done (b + 256 * r)

-- The `n` bytes at `i`, the highest first: also binary.BigEndian.UintN(d[i : i+n]).
unfoldable pub be_at : Bytes → ℕ → ℕ → ℕ → Cell ℕ
unfolding byte_at
be_at d i zero acc = done acc
be_at d i (suc n) acc = do b ← byte_at d i; be_at d (i + 1) n (acc * 256 + b)

-- binary.BigEndian.Uint64 of a buffer that ends in `d` and is 0 before it
unfoldable pub big_endian : Bytes → ℕ → ℕ
big_endian [] acc = acc
big_endian (b ∷ d) acc = big_endian d (acc * 256 + b)

-- An optional method or result of the third-party types.
unfoldable pub assert {ℓ} : {A : Type ℓ} → Option A → Cell A
assert none = panicked
assert (some a) = done a

unfoldable pub or_error {ℓ} : {A : Type ℓ} → ℕ → CellError → Option A → Cell A
or_error n e none = failed (n, e)
or_error n e (some a) = done a

-- charset.DecodeBytes with the character set of column.Type.(sql.StringType), where an error is
-- returned with the number `n`
unfoldable pub decode_text : Externals → Column → ℕ → Bytes → Cell Bytes
unfolding assert
decode_text x col n src = do
  id ← assert col.charset
  elim (decode_bytes x.codecs id src).1 [
    | none ↦ done (decode_bytes x.codecs id src).0
    | some e ↦ failed (n, decode_error)
  ]
