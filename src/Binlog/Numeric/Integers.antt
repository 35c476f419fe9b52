-- ===== src/Binlog/Numeric/Integers.antt =====
-- The integer cells of CellValue (binlog/rbr.go) give back the number that MySQL wrote.
use myduckserver.Base.{ℕ, ◌*◌, ◌/◌, ◌%◌, ◌^◌, ◌<◌, ◌≡◌, ap, ◌∙◌, arith, true, false, ◌++◌, done}
use myduckserver.Base.Int.{ℤ, pos, negsuc, signed}
use myduckserver.Base.Bits.{top_bit}
use myduckserver.Charset.{Bytes}
use myduckserver.Binlog.Cell.{
  Cell, int, uint, Kind, int8, uint8, int16, uint16, int32, uint32, int64, uint64, Builder, Column,
  byte_at, append_as,
}
use myduckserver.Binlog.Cell.Encode.{le_bytes, twos_complement, InRange, push, le_at-le_bytes}
use myduckserver.Binlog.Numeric.{cell_tiny, cell_short, cell_int24, cell_long, cell_long_long}

-- The integer types of MySQL, with their sizes and builders.
pub data IntegerType : Type 0 where
  tinyint smallint mediumint integer bigint : IntegerType

abbrev pub size : IntegerType → ℕ
size tinyint = 1
size smallint = 2
size mediumint = 3
size integer = 4
size bigint = 8

abbrev pub signed_kind : IntegerType → Kind
signed_kind tinyint = int8
signed_kind smallint = int16
signed_kind mediumint = int32
signed_kind integer = int32
signed_kind bigint = int64

abbrev pub unsigned_kind : IntegerType → Kind
unsigned_kind tinyint = uint8
unsigned_kind smallint = uint16
unsigned_kind mediumint = uint32
unsigned_kind integer = uint32
unsigned_kind bigint = uint64

abbrev pub cell_integer : IntegerType → Bytes → ℕ → Column → Builder → Cell (ℕ × Builder)
cell_integer tinyint = cell_tiny
cell_integer smallint = cell_short
cell_integer mediumint = cell_int24
cell_integer integer = cell_long
cell_integer bigint = cell_long_long

module _ (rest : Bytes) (col : Column) (b : Builder) where
  -- A cell of `size t` bytes that hold the pattern `v`, in a signed column.
  signed_pattern :
      (t : IntegerType) (v : ℕ)
      → v < 256 ^ size t
      → col.is_signed ≡ true
      → b.kind ≡ signed_kind t
      → cell_integer t (le_bytes (size t) v ++ rest) 0 col b
        ≡ done (size t, push (int (signed (8 * size t) v)) b)
  unfolding cell_tiny cell_short cell_int24 cell_long cell_long_long byte_at append_as
  signed_pattern tinyint v h s k = ground arith
  signed_pattern smallint v h s k = ground (arith, le_at-le_bytes 2 v rest)
  signed_pattern mediumint v h s k =
      ground (arith, le_at-le_bytes 3 v rest, top_bit (v / 256 / 256 % 256) (omega arith))
  signed_pattern integer v h s k = ground (arith, le_at-le_bytes 4 v rest)
  signed_pattern bigint v h s k = ground (arith, le_at-le_bytes 8 v rest)

  unsigned_pattern :
      (t : IntegerType) (v : ℕ)
      → v < 256 ^ size t
      → col.is_signed ≡ false
      → b.kind ≡ unsigned_kind t
      → cell_integer t (le_bytes (size t) v ++ rest) 0 col b ≡ done (size t, push (uint v) b)
  unfolding cell_tiny cell_short cell_int24 cell_long cell_long_long byte_at append_as
  unsigned_pattern tinyint v h s k = ground arith
  unsigned_pattern smallint v h s k = ground (arith, le_at-le_bytes 2 v rest)
  unsigned_pattern mediumint v h s k = ground (arith, le_at-le_bytes 3 v rest)
  unsigned_pattern integer v h s k = ground (arith, le_at-le_bytes 4 v rest)
  unsigned_pattern bigint v h s k = ground (arith, le_at-le_bytes 8 v rest)

twos_complement-lt :
    (t : IntegerType) (z : ℤ)
    → InRange (8 * size t) z
    → twos_complement (8 * size t) z < 256 ^ size t
twos_complement-lt tinyint (pos n) h = omega arith
twos_complement-lt tinyint (negsuc n) h = omega arith
twos_complement-lt smallint (pos n) h = omega arith
twos_complement-lt smallint (negsuc n) h = omega arith
twos_complement-lt mediumint (pos n) h = omega arith
twos_complement-lt mediumint (negsuc n) h = omega arith
twos_complement-lt integer (pos n) h = omega arith
twos_complement-lt integer (negsuc n) h = omega arith
twos_complement-lt bigint (pos n) h = omega arith
twos_complement-lt bigint (negsuc n) h = omega arith

signed-twos_complement :
    (t : IntegerType) (z : ℤ)
    → InRange (8 * size t) z
    → signed (8 * size t) (twos_complement (8 * size t) z) ≡ z
signed-twos_complement tinyint (pos n) h = ground arith
signed-twos_complement tinyint (negsuc n) h = ground arith
signed-twos_complement smallint (pos n) h = ground arith
signed-twos_complement smallint (negsuc n) h = ground arith
signed-twos_complement mediumint (pos n) h = ground arith
signed-twos_complement mediumint (negsuc n) h = ground arith
signed-twos_complement integer (pos n) h = ground arith
signed-twos_complement integer (negsuc n) h = ground arith
signed-twos_complement bigint (pos n) h = ground arith
signed-twos_complement bigint (negsuc n) h = ground arith

-- At each integer type, MEDIUMINT with its extended sign included, an integer in the range of the type,
-- written in two's complement, is appended to the builder of the signed column as that integer.
pub cell_integer-twos_complement :
    (t : IntegerType) (z : ℤ) (rest : Bytes) (col : Column) (b : Builder)
    → InRange (8 * size t) z
    → col.is_signed ≡ true
    → b.kind ≡ signed_kind t
    → cell_integer t (le_bytes (size t) (twos_complement (8 * size t) z) ++ rest) 0 col b
      ≡ done (size t, push (int z) b)
cell_integer-twos_complement t z rest col b h s k =
    signed_pattern rest col b t (twos_complement (8 * size t) z) (twos_complement-lt t z h) s k
    ∙ ap (λ (i : ℤ). done (size t, push (int i) b)) (signed-twos_complement t z h)

-- At each integer type, a number below 256 to the type's size is appended to the builder of the
-- unsigned column as that number.
pub cell_integer-unsigned :
    (t : IntegerType) (v : ℕ) (rest : Bytes) (col : Column) (b : Builder)
    → v < 256 ^ size t
    → col.is_signed ≡ false
    → b.kind ≡ unsigned_kind t
    → cell_integer t (le_bytes (size t) v ++ rest) 0 col b ≡ done (size t, push (uint v) b)
cell_integer-unsigned t v rest col b h s k = unsigned_pattern rest col b t v h s k
