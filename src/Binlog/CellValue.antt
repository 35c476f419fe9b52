-- ===== src/Binlog/CellValue.antt =====
-- CellValue of binlog/rbr.go: the switch over the column's type.
pub mod Position
pub mod Agreement
use myduckserver.Base.{ℕ, failed}
use myduckserver.Charset.{Bytes}
use myduckserver.Binlog.FieldType
use myduckserver.Binlog.FieldType.{FieldType}
use myduckserver.Binlog.Cell.{Cell, unsupported_type, Builder, Column, Externals}
use myduckserver.Binlog.Numeric.{
  cell_tiny, cell_year, cell_short, cell_int24, cell_long, cell_float, cell_double, cell_long_long,
  cell_bit,
}
use myduckserver.Binlog.Temporal.{
  cell_timestamp, cell_date, cell_time, cell_date_time, cell_timestamp2, cell_date_time2,
  cell_time2,
}
use myduckserver.Binlog.Decimal.{cell_decimal}
use myduckserver.Binlog.Text.{cell_varchar, cell_enum, cell_set, cell_string}
use myduckserver.Binlog.Blob.{cell_json, cell_blob, cell_geometry}

unfoldable pub cell_value :
    Externals → Bytes → ℕ → FieldType → ℕ → Column → Builder → Cell (ℕ × Builder)
cell_value x d pos FieldType.tiny m col b = cell_tiny d pos col b
cell_value x d pos FieldType.year m col b = cell_year d pos b
cell_value x d pos FieldType.short m col b = cell_short d pos col b
cell_value x d pos FieldType.int24 m col b = cell_int24 d pos col b
cell_value x d pos FieldType.long m col b = cell_long d pos col b
cell_value x d pos FieldType.float m col b = cell_float d pos b
cell_value x d pos FieldType.double m col b = cell_double d pos b
cell_value x d pos FieldType.timestamp m col b = cell_timestamp d pos b
cell_value x d pos FieldType.long_long m col b = cell_long_long d pos col b
cell_value x d pos FieldType.date m col b = cell_date d pos b
cell_value x d pos FieldType.new_date m col b = cell_date d pos b
cell_value x d pos FieldType.time m col b = cell_time d pos b
cell_value x d pos FieldType.date_time m col b = cell_date_time d pos b
cell_value x d pos FieldType.varchar m col b = cell_varchar x d pos m col b
cell_value x d pos FieldType.var_string m col b = cell_varchar x d pos m col b
cell_value x d pos FieldType.bit m col b = cell_bit d pos m b
cell_value x d pos FieldType.timestamp2 m col b = cell_timestamp2 d pos m b
cell_value x d pos FieldType.date_time2 m col b = cell_date_time2 d pos m b
cell_value x d pos FieldType.time2 m col b = cell_time2 d pos m b
cell_value x d pos FieldType.new_decimal m col b = cell_decimal d pos m b
cell_value x d pos FieldType.enum m col b = cell_enum d pos m col b
cell_value x d pos FieldType.set m col b = cell_set d pos m col b
cell_value x d pos FieldType.json m col b = cell_json x d pos m b
cell_value x d pos FieldType.tiny_blob m col b = cell_blob x d pos m col b
cell_value x d pos FieldType.medium_blob m col b = cell_blob x d pos m col b
cell_value x d pos FieldType.long_blob m col b = cell_blob x d pos m col b
cell_value x d pos FieldType.blob m col b = cell_blob x d pos m col b
cell_value x d pos FieldType.vector m col b = cell_blob x d pos m col b
cell_value x d pos FieldType.string m col b = cell_string x d pos m col b
cell_value x d pos FieldType.geometry m col b = cell_geometry d pos m b
cell_value x d pos FieldType.null m col b = failed (0, unsupported_type)
cell_value x d pos FieldType.decimal m col b = failed (0, unsupported_type)
cell_value x d pos (FieldType.unknown n) m col b = failed (0, unsupported_type)
