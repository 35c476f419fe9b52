-- ===== src/Binlog.antt =====
-- The decoding of row events, binlog/rbr.go and binlog/constants.go.
pub mod FieldType
pub mod Cell
pub mod Length
pub mod Numeric
pub mod Temporal
pub mod Decimal
pub mod Text
pub mod Blob
pub mod CellValue
