-- ===== src/Binlog/CellValue/Position.antt =====
-- CellValue of binlog/rbr.go does not depend on where in the event a cell stands.
use native.Mathlib.Nat.{add_assoc}
use myduckserver.Base.{ℕ, ◌+◌, ◌≡◌, refl, ◌++◌, length}
use myduckserver.Charset.{Bytes}
use myduckserver.Binlog.FieldType.{FieldType}
use myduckserver.Binlog.Cell.{Builder, Column, Externals}
use myduckserver.Binlog.Cell.Reads.{byte_at-append, le_at-append, be_at-append, slice-append}
use myduckserver.Binlog.Numeric.{
  cell_tiny, cell_year, cell_short, cell_int24, cell_long, cell_float, cell_double, cell_long_long,
  cell_bit,
}
use myduckserver.Binlog.Temporal.{
  cell_timestamp, cell_date, cell_time, cell_date_time, cell_timestamp2, cell_date_time2,
  cell_time2,
}
use myduckserver.Binlog.Decimal.{cell_decimal}
use myduckserver.Binlog.Text.{prefixed_bytes, cell_varchar, cell_enum, cell_set, cell_string}
use myduckserver.Binlog.Blob.{blob_prefix, cell_json, cell_blob, cell_geometry}
use myduckserver.Binlog.CellValue.{cell_value}

ruleset reads = (add_assoc, byte_at-append, le_at-append, be_at-append, slice-append)

-- A cell gives the same result, error or panic wherever it stands in the event: bytes in front of the
-- data, with the position moved behind them, change nothing.
pub cell_value_position :
    (x : Externals) (front d : Bytes) (pos : ℕ) (t : FieldType) (m : ℕ) (col : Column) (b : Builder)
    → cell_value x (front ++ d) (length front + pos) t m col b ≡ cell_value x d pos t m col b
unfolding cell_value prefixed_bytes blob_prefix
cell_value_position x front d pos FieldType.tiny m col b = unfold cell_tiny in simp reads
cell_value_position x front d pos FieldType.year m col b = unfold cell_year in simp reads
cell_value_position x front d pos FieldType.short m col b = unfold cell_short in simp reads
cell_value_position x front d pos FieldType.int24 m col b = unfold cell_int24 in simp reads
cell_value_position x front d pos FieldType.long m col b = unfold cell_long in simp reads
cell_value_position x front d pos FieldType.float m col b = unfold cell_float in simp reads
cell_value_position x front d pos FieldType.double m col b = unfold cell_double in simp reads
cell_value_position x front d pos FieldType.timestamp m col b = unfold cell_timestamp in simp reads
cell_value_position x front d pos FieldType.long_long m col b = unfold cell_long_long in simp reads
cell_value_position x front d pos FieldType.date m col b = unfold cell_date in simp reads
cell_value_position x front d pos FieldType.new_date m col b = unfold cell_date in simp reads
cell_value_position x front d pos FieldType.time m col b = unfold cell_time in simp reads
cell_value_position x front d pos FieldType.date_time m col b = unfold cell_date_time in simp reads
cell_value_position x front d pos FieldType.varchar m col b = unfold cell_varchar in simp reads
cell_value_position x front d pos FieldType.var_string m col b = unfold cell_varchar in simp reads
cell_value_position x front d pos FieldType.bit m col b = unfold cell_bit in simp reads
cell_value_position x front d pos FieldType.timestamp2 m col b =
    unfold cell_timestamp2 in simp reads
cell_value_position x front d pos FieldType.date_time2 m col b =
    unfold cell_date_time2 in simp reads
cell_value_position x front d pos FieldType.time2 m col b = unfold cell_time2 in simp reads
cell_value_position x front d pos FieldType.new_decimal m col b = unfold cell_decimal in simp reads
cell_value_position x front d pos FieldType.enum m col b = unfold cell_enum in simp reads
cell_value_position x front d pos FieldType.set m col b = unfold cell_set in simp reads
cell_value_position x front d pos FieldType.json m col b = unfold cell_json in simp reads
cell_value_position x front d pos FieldType.tiny_blob m col b = unfold cell_blob in simp reads
cell_value_position x front d pos FieldType.medium_blob m col b = unfold cell_blob in simp reads
cell_value_position x front d pos FieldType.long_blob m col b = unfold cell_blob in simp reads
cell_value_position x front d pos FieldType.blob m col b = unfold cell_blob in simp reads
cell_value_position x front d pos FieldType.vector m col b = unfold cell_blob in simp reads
cell_value_position x front d pos FieldType.string m col b = unfold cell_string in simp reads
cell_value_position x front d pos FieldType.geometry m col b = unfold cell_geometry in simp reads
cell_value_position x front d pos FieldType.null m col b = refl
cell_value_position x front d pos FieldType.decimal m col b = refl
cell_value_position x front d pos (FieldType.unknown k) m col b = refl
