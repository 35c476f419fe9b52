-- ===== src/Binlog/Length.antt =====
-- CellLength of binlog/rbr.go: how many bytes a cell takes. `m` is the column's metadata, a uint16.
-- An `int` of Go has 64 bits; no number here comes near its bounds.
use myduckserver.Base.{
  ℕ, ◌+◌, ◌-◌, ◌*◌, ◌/◌, ◌%◌, ◌^◌, bit_and, bit_xor, ◌||◌, ltb, leb, ◌==◌, if◌then◌else◌, [], ◌∷◌,
  get_elem?, done, failed, panicked, ◌>>=◌,
}
use myduckserver.Charset.{Bytes}
use myduckserver.Binlog.FieldType.{FieldType}
use myduckserver.Binlog.Cell.{Cell, unsupported_type, unsupported_blob, byte_at, le_at, assert}

-- dig2bytes[i]
unfoldable pub dig2bytes : ℕ → Cell ℕ
unfolding assert
dig2bytes i = assert (get_elem? (0 ∷ 1 ∷ 1 ∷ 2 ∷ 2 ∷ 3 ∷ 3 ∷ 4 ∷ 4 ∷ 4 ∷ []) i)

-- The number of bits of a BIT column, in uint16 arithmetic.
unfoldable pub bit_count : ℕ → ℕ
bit_count m = (m / 2 ^ 8 * 8 % 2 ^ 16 + m % 256) % 2 ^ 16

-- The maximal length of a CHAR or BINARY column, which two bits of the type byte extend.
unfoldable pub max_length : ℕ → ℕ
max_length m = bit_xor (bit_and (m / 2 ^ 4) 0x300) 0x300 + m % 256

-- Go divides towards zero, so where the scale exceeds the precision by `n`, `intg` is -n, `intg0` is
-- -(n / 9), and `dig2bytes[intg0x]` panics unless 9 divides n. The sum is never negative, since
-- n / 9 is at most frac0.
unfoldable pub decimal_length : ℕ → Cell ℕ
decimal_length m =
    let precision = m / 2 ^ 8 in
    let scale = m % 256 in
    let frac0 = scale / 9 in
    let frac0x = scale - frac0 * 9 in
    let intg = precision - scale in
    let intg0 = intg / 9 in
    let missing = scale - precision in
    if leb scale precision
    then (do
      i ← dig2bytes (intg - intg0 * 9)
      f ← dig2bytes frac0x
      done (intg0 * 4 + i + frac0 * 4 + f))
    else if missing % 9 == 0
    then (do f ← dig2bytes frac0x; done (frac0 * 4 + f - missing / 9 * 4))
    else panicked

-- A length in two bytes or in one, before the contents.
unfoldable pub prefixed_length : Bytes → ℕ → ℕ → Cell ℕ
prefixed_length d pos max =
    if ltb 255 max then (do l ← le_at d pos 2; done (l + 2)) else do l ← byte_at d pos; done (l + 1)

unfoldable pub blob_length : Bytes → ℕ → ℕ → Cell ℕ
blob_length d pos m =
    if m == 1
    then (do l ← byte_at d pos; done (1 + l))
    else if m == 2
    then (do l ← le_at d pos 2; done (2 + l))
    else if m == 3
    then (do l ← le_at d pos 3; done (3 + l))
    else if m == 4
    then (do l ← le_at d pos 4; done (4 + l))
    else failed (0, unsupported_blob)

unfoldable pub string_length : Bytes → ℕ → ℕ → Cell ℕ
unfolding prefixed_length
string_length d pos m =
    if m / 2 ^ 8 == 247 || m / 2 ^ 8 == 248
    then done (m % 256)
    else prefixed_length d pos (max_length m)

unfoldable pub cell_length : Bytes → ℕ → FieldType → ℕ → Cell ℕ
cell_length d pos FieldType.null m = done 0
cell_length d pos FieldType.tiny m = done 1
cell_length d pos FieldType.year m = done 1
cell_length d pos FieldType.short m = done 2
cell_length d pos FieldType.int24 m = done 3
cell_length d pos FieldType.long m = done 4
cell_length d pos FieldType.float m = done 4
cell_length d pos FieldType.timestamp m = done 4
cell_length d pos FieldType.long_long m = done 8
cell_length d pos FieldType.double m = done 8
cell_length d pos FieldType.date m = done 3
cell_length d pos FieldType.time m = done 3
cell_length d pos FieldType.new_date m = done 3
cell_length d pos FieldType.date_time m = done 8
cell_length d pos FieldType.varchar m = prefixed_length d pos m
cell_length d pos FieldType.var_string m = prefixed_length d pos m
cell_length d pos FieldType.bit m = done ((bit_count m + 7) / 8)
cell_length d pos FieldType.timestamp2 m = done (4 + (m + 1) / 2)
cell_length d pos FieldType.date_time2 m = done (5 + (m + 1) / 2)
cell_length d pos FieldType.time2 m = done (3 + (m + 1) / 2)
cell_length d pos FieldType.new_decimal m = decimal_length m
cell_length d pos FieldType.enum m = done (m % 256)
cell_length d pos FieldType.set m = done (m % 256)
cell_length d pos FieldType.json m = blob_length d pos m
cell_length d pos FieldType.tiny_blob m = blob_length d pos m
cell_length d pos FieldType.medium_blob m = blob_length d pos m
cell_length d pos FieldType.long_blob m = blob_length d pos m
cell_length d pos FieldType.blob m = blob_length d pos m
cell_length d pos FieldType.geometry m = blob_length d pos m
cell_length d pos FieldType.vector m = blob_length d pos m
cell_length d pos FieldType.string m = string_length d pos m
cell_length d pos FieldType.decimal m = failed (0, unsupported_type)
cell_length d pos (FieldType.unknown n) m = failed (0, unsupported_type)
