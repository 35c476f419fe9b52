-- ===== src/Samples.antt =====
-- Test data for the runs and examples of the children: columns, builders, and a third-party code that
-- does little.
pub mod Integers
pub mod Temporal
pub mod Decimals
pub mod Texts
pub mod Cells
pub mod Controllers
pub mod Filters
pub mod Flushes
pub mod Replicas
pub mod Documents
pub mod Pools
pub mod Appliers
pub mod Views
use myduckserver.Base.{ℕ, Bool, true, false, Option, none, some, List, [], ◌∷◌}
use myduckserver.Charset.{Codecs, Bytes}
use myduckserver.Binlog.Cell.{Kind, Builder, QueryType, query_other, Column, Externals}

abbrev pub builder : Kind → Builder
builder k = record { kind = k; decimal_scale = none; items = [] }

abbrev pub column : QueryType → Bool → Bool → Column
column q is_signed is_binary = record {
  query_type = q;
  is_signed = is_signed;
  is_binary = is_binary;
  charset = none;
  enum_at = none;
  set_string = none;
}

-- An INT column.
abbrev pub signed_column : Column
signed_column = column query_other true false

-- The codecs hand the bytes on, and no JSON is parsed.
abbrev pub externals : Externals
externals = record {
  codecs = record { decoder = λ en s. (s, none); encoder = λ en s. (s, none) };
  json_binary = λ s. none;
  json_text = λ s. none;
}
