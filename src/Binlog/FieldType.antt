-- ===== src/Binlog/FieldType.antt =====
-- binlog/constants.go: the type byte of a column in a row event, and its name. The constructors are
-- the constants in their order; `unknown` is a byte that is none of them.
use Prim.Native.String.{String}
use myduckserver.Base.{ℕ}

pub data FieldType : Type 0 where
  decimal tiny short long float double null timestamp long_long int24 : FieldType
  date time date_time year new_date varchar bit timestamp2 date_time2 time2 : FieldType
  vector json new_decimal enum set tiny_blob medium_blob long_blob blob : FieldType
  var_string string geometry : FieldType
  unknown : ℕ → FieldType

unfoldable pub code : FieldType → ℕ
code decimal = 0
code tiny = 1
code short = 2
code long = 3
code float = 4
code double = 5
code null = 6
code timestamp = 7
code long_long = 8
code int24 = 9
code date = 10
code time = 11
code date_time = 12
code year = 13
code new_date = 14
code varchar = 15
code bit = 16
code timestamp2 = 17
code date_time2 = 18
code time2 = 19
code vector = 242
code json = 245
code new_decimal = 246
code enum = 247
code set = 248
code tiny_blob = 249
code medium_blob = 250
code long_blob = 251
code blob = 252
code var_string = 253
code string = 254
code geometry = 255
code (unknown n) = n

-- The names of `TypeNames`; a missing key of the map gives the empty string.
unfoldable pub type_name : FieldType → String
type_name decimal = "DECIMAL"
type_name tiny = "TINY"
type_name short = "SHORT"
type_name long = "LONG"
type_name float = "FLOAT"
type_name double = "DOUBLE"
type_name null = "NULL"
type_name timestamp = "TIMESTAMP"
type_name long_long = "LONGLONG"
type_name int24 = "INT24"
type_name date = "DATE"
type_name time = "TIME"
type_name date_time = "DATETIME"
type_name year = "YEAR"
type_name new_date = "NEWDATE"
type_name varchar = "VARCHAR"
type_name bit = "BIT"
type_name timestamp2 = "TIMESTAMP2"
type_name date_time2 = "DATETIME2"
type_name time2 = "TIME2"
type_name vector = "VECTOR"
type_name json = "JSON"
type_name new_decimal = "NEWDECIMAL"
type_name enum = "ENUM"
type_name set = "SET"
type_name tiny_blob = "TINY_BLOB"
type_name medium_blob = "MEDIUM_BLOB"
type_name long_blob = "LONG_BLOB"
type_name blob = "BLOB"
type_name var_string = "VAR_STRING"
type_name string = "STRING"
type_name geometry = "GEOMETRY"
type_name (unknown n) = ""
