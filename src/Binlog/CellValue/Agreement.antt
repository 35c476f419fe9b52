-- ===== src/Binlog/CellValue/Agreement.antt =====
-- CellValue and CellLength of binlog/rbr.go report the same size.
use myduckserver.Base.{ℕ, ◌≤◌, ◌≡◌, arith, done}
use myduckserver.Charset.{Bytes}
use myduckserver.Binlog.FieldType.{FieldType}
use myduckserver.Binlog.Cell.{Builder, Column, Externals}
use myduckserver.Binlog.Length.{
  cell_length, prefixed_length, blob_length, string_length, decimal_length,
}
use myduckserver.Binlog.Numeric.{
  cell_tiny, cell_year, cell_short, cell_int24, cell_long, cell_float, cell_double, cell_long_long,
  cell_bit,
}
use myduckserver.Binlog.Temporal.{
  cell_timestamp, cell_date, cell_time, cell_date_time, cell_timestamp2, cell_date_time2,
  cell_time2,
}
use myduckserver.Binlog.Decimal.{cell_decimal}
use myduckserver.Binlog.Text.{prefixed_bytes, cell_varchar, cell_enum, cell_set, cell_string}
use myduckserver.Binlog.Blob.{blob_prefix, cell_json, cell_blob, cell_geometry}
use myduckserver.Binlog.CellValue.{cell_value}

-- MySQL stores at most six decimals of a second.
abbrev pub FractionFits : FieldType → ℕ → Type 0
FractionFits FieldType.timestamp2 m = m ≤ 6
FractionFits FieldType.date_time2 m = m ≤ 6
FractionFits _ m = Unit

module _ (x : Externals) (d : Bytes) (pos m : ℕ) (col : Column) (b : Builder) {n : ℕ}
    {b' : Builder} where
  prefixed_size : cell_varchar x d pos m col b ≡ done (n, b') → prefixed_length d pos m ≡ done n
  unfolding cell_varchar prefixed_length prefixed_bytes
  prefixed_size h = ground arith

  decimal_size : cell_decimal d pos m b ≡ done (n, b') → decimal_length m ≡ done n
  unfolding cell_decimal decimal_length
  decimal_size h = ground arith

  string_size : cell_string x d pos m col b ≡ done (n, b') → string_length d pos m ≡ done n
  unfolding cell_string string_length prefixed_bytes
  string_size h = ground arith

  blob_size : cell_blob x d pos m col b ≡ done (n, b') → blob_length d pos m ≡ done n
  unfolding cell_blob blob_length blob_prefix
  blob_size h = ground arith

  json_size : cell_json x d pos m b ≡ done (n, b') → blob_length d pos m ≡ done n
  unfolding cell_json blob_length blob_prefix
  json_size h = ground arith

  geometry_size : cell_geometry d pos m b ≡ done (n, b') → blob_length d pos m ≡ done n
  unfolding cell_geometry blob_length blob_prefix
  geometry_size h = ground arith

-- Whenever CellValue returns a value, CellLength returns the same number of bytes for the cell, at every
-- type and metadata, save that a TIMESTAMP or DATETIME must have at most six decimals.
pub cell_value-cell_length :
    (x : Externals) (d : Bytes) (pos : ℕ) (t : FieldType) (m : ℕ) (col : Column) (b : Builder)
    {n : ℕ} {b' : Builder}
    → FractionFits t m
    → cell_value x d pos t m col b ≡ done (n, b')
    → cell_length d pos t m ≡ done n
unfolding cell_value cell_length
cell_value-cell_length x d pos FieldType.tiny m col b f h = unfold cell_tiny in ground arith
cell_value-cell_length x d pos FieldType.year m col b f h = unfold cell_year in ground arith
cell_value-cell_length x d pos FieldType.short m col b f h = unfold cell_short in ground arith
cell_value-cell_length x d pos FieldType.int24 m col b f h = unfold cell_int24 in ground arith
cell_value-cell_length x d pos FieldType.long m col b f h = unfold cell_long in ground arith
cell_value-cell_length x d pos FieldType.float m col b f h = unfold cell_float in ground arith
cell_value-cell_length x d pos FieldType.double m col b f h = unfold cell_double in ground arith
cell_value-cell_length x d pos FieldType.timestamp m col b f h =
    unfold cell_timestamp in ground arith
cell_value-cell_length x d pos FieldType.long_long m col b f h =
    unfold cell_long_long in ground arith
cell_value-cell_length x d pos FieldType.date m col b f h = unfold cell_date in ground arith
cell_value-cell_length x d pos FieldType.new_date m col b f h = unfold cell_date in ground arith
cell_value-cell_length x d pos FieldType.time m col b f h = unfold cell_time in ground arith
cell_value-cell_length x d pos FieldType.date_time m col b f h =
    unfold cell_date_time in ground arith
cell_value-cell_length x d pos FieldType.bit m col b f h = unfold cell_bit in ground arith
cell_value-cell_length x d pos FieldType.timestamp2 m col b f h =
    unfold cell_timestamp2 in ground arith
cell_value-cell_length x d pos FieldType.date_time2 m col b f h =
    unfold cell_date_time2 in ground arith
cell_value-cell_length x d pos FieldType.time2 m col b f h = unfold cell_time2 in ground arith
cell_value-cell_length x d pos FieldType.enum m col b f h = unfold cell_enum in ground arith
cell_value-cell_length x d pos FieldType.set m col b f h = unfold cell_set in ground arith
cell_value-cell_length x d pos FieldType.varchar m col b f h = prefixed_size x d pos m col b h
cell_value-cell_length x d pos FieldType.var_string m col b f h = prefixed_size x d pos m col b h
cell_value-cell_length x d pos FieldType.new_decimal m col b f h = decimal_size x d pos m col b h
cell_value-cell_length x d pos FieldType.json m col b f h = json_size x d pos m col b h
cell_value-cell_length x d pos FieldType.tiny_blob m col b f h = blob_size x d pos m col b h
cell_value-cell_length x d pos FieldType.medium_blob m col b f h = blob_size x d pos m col b h
cell_value-cell_length x d pos FieldType.long_blob m col b f h = blob_size x d pos m col b h
cell_value-cell_length x d pos FieldType.blob m col b f h = blob_size x d pos m col b h
cell_value-cell_length x d pos FieldType.vector m col b f h = blob_size x d pos m col b h
cell_value-cell_length x d pos FieldType.string m col b f h = string_size x d pos m col b h
cell_value-cell_length x d pos FieldType.geometry m col b f h = geometry_size x d pos m col b h
cell_value-cell_length x d pos FieldType.null m col b f h = cc
cell_value-cell_length x d pos FieldType.decimal m col b f h = cc
cell_value-cell_length x d pos (FieldType.unknown k) m col b f h = cc
