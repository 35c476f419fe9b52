-- ===== src/Binlog/Numeric.antt =====
-- CellValue of binlog/rbr.go at the types of fixed size that hold numbers: integers, YEAR, floats, BIT.
-- Each decoder returns the number of bytes and the builder with the value appended.
pub mod Integers
use myduckserver.Base.{
  ℕ, ◌+◌, ◌-◌, ◌*◌, ◌/◌, ◌%◌, ◌^◌, bit_and, ◌&&◌, ltb, leb, ◌==◌, if◌then◌else◌, done, failed,
  panicked, ◌>>=◌,
}
use myduckserver.Base.Int.{signed}
use myduckserver.Charset.{Bytes}
use myduckserver.Binlog.Cell.{
  Cell, unexpected_builder, Value, int, uint, float_bits, Kind, int8, uint8, int16, uint16, int32,
  uint32, int64, uint64, float32, float64, Builder, Column, append_as, byte_at, le_at, slice,
  big_endian,
}
use myduckserver.Binlog.Length.{bit_count}

-- The append that the signedness of the column's type chooses, for a number of `w` bits.
append_word : ℕ → Kind → Kind → Column → ℕ → Builder → Cell Builder
append_word w k_signed k_unsigned col val b =
    if col.is_signed
    then append_as k_signed (int (signed w val)) b
    else append_as k_unsigned (uint val) b

unfoldable pub cell_tiny : Bytes → ℕ → Column → Builder → Cell (ℕ × Builder)
unfolding append_word
cell_tiny d pos col b = do
  val ← byte_at d pos
  b' ← append_word 8 int8 uint8 col val b
  done (1, b')

unfoldable pub cell_year : Bytes → ℕ → Builder → Cell (ℕ × Builder)
cell_year d pos b = do
  val ← byte_at d pos
  b' ← append_as uint16 (uint (if val == 0 then 0 else val + 1900)) b
  done (1, b')

unfoldable pub cell_short : Bytes → ℕ → Column → Builder → Cell (ℕ × Builder)
unfolding append_word
cell_short d pos col b = do
  val ← le_at d pos 2
  b' ← append_word 16 int16 uint16 col val b
  done (2, b')

-- The type switch over the builder for a MEDIUMINT with the top bit clear, or unsigned.
append_int24 : Kind → ℕ → Builder → Cell Builder
append_int24 int32 val b = append_as int32 (int (signed 32 val)) b
append_int24 uint32 val b = append_as uint32 (uint val) b
append_int24 _ val b = failed (0, unexpected_builder)

unfoldable pub cell_int24 : Bytes → ℕ → Column → Builder → Cell (ℕ × Builder)
unfolding append_int24
cell_int24 d pos col b = do
  top ← byte_at d (pos + 2)
  val ← le_at d pos 3
  b' ←
      if col.is_signed && ltb 0 (bit_and top 128)
      then append_as int32 (int (signed 32 ((val + 255 * 2 ^ 24) % 2 ^ 32))) b
      else append_int24 b.kind val b
  done (3, b')

unfoldable pub cell_long : Bytes → ℕ → Column → Builder → Cell (ℕ × Builder)
unfolding append_word
cell_long d pos col b = do
  val ← le_at d pos 4
  b' ← append_word 32 int32 uint32 col val b
  done (4, b')

unfoldable pub cell_float : Bytes → ℕ → Builder → Cell (ℕ × Builder)
cell_float d pos b = do val ← le_at d pos 4; b' ← append_as float32 (float_bits val) b; done (4, b')

unfoldable pub cell_double : Bytes → ℕ → Builder → Cell (ℕ × Builder)
cell_double d pos b = do
  val ← le_at d pos 8
  b' ← append_as float64 (float_bits val) b
  done (8, b')

unfoldable pub cell_long_long : Bytes → ℕ → Column → Builder → Cell (ℕ × Builder)
unfolding append_word
cell_long_long d pos col b = do
  val ← le_at d pos 8
  b' ← append_word 64 int64 uint64 col val b
  done (8, b')

-- `copy(buf[8-l:], d[pos:pos+l])` into a zeroed [8]byte: a slice of more than 8 bytes panics.
unfoldable pub cell_bit : Bytes → ℕ → ℕ → Builder → Cell (ℕ × Builder)
cell_bit d pos m b =
    let l = (bit_count m + 7) / 8 in
    if leb l 8
    then (do src ← slice d pos l; b' ← append_as uint64 (uint (big_endian src 0)) b; done (l, b'))
    else panicked
