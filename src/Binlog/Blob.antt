-- ===== src/Binlog/Blob.antt =====
-- CellValue of binlog/rbr.go at JSON, the BLOB and TEXT types, VECTOR and GEOMETRY.
use myduckserver.Base.{ℕ, ◌+◌, Bool, true, false, ◌==◌, if◌then◌else◌, done, failed, ◌>>=◌}
use myduckserver.Charset.{Bytes}
use myduckserver.Binlog.Cell.{
  Cell, CellError, unsupported_blob, unsupported_geometry, unexpected_builder, binary_value, Kind,
  binary, utf8, Builder, Column, QueryType, query_json, Externals, append_as, byte_at, le_at, slice,
  assert, decode_text,
}

-- The length in `m` bytes, and the error at any other metadata.
unfoldable pub blob_prefix : CellError → Bytes → ℕ → ℕ → Cell ℕ
blob_prefix e d pos m =
    if m == 1
    then byte_at d pos
    else if m == 2
    then le_at d pos 2
    else if m == 3
    then le_at d pos 3
    else if m == 4
    then le_at d pos 4
    else failed (0, e)

-- A JSON document that does not parse panics.
unfoldable pub cell_json : Externals → Bytes → ℕ → ℕ → Builder → Cell (ℕ × Builder)
unfolding assert
cell_json x d pos m b = do
  l ← blob_prefix unsupported_blob d pos m
  src ← slice d (pos + m) l
  doc ← assert (x.json_binary src)
  b' ← append_as utf8 (binary_value doc) b
  done (l + m, b')

is_json : QueryType → Bool
is_json query_json = true
is_json _ = false

-- The type switch over the builder of a blob, whose cases cut its bytes out of the data.
append_blob : Externals → Column → Kind → ℕ → Cell Bytes → Builder → Cell Builder
append_blob x col binary l src b = do s ← src; append_as binary (binary_value s) b
append_blob x col utf8 l src b = do
  s ← src
  text ← decode_text x col l s
  append_as utf8 (binary_value text) b
append_blob x col _ l src b = failed (0, unexpected_builder)

-- A blob in a column of JSON type holds the document as text.
unfoldable pub cell_blob : Externals → Bytes → ℕ → ℕ → Column → Builder → Cell (ℕ × Builder)
unfolding assert is_json append_blob
cell_blob x d pos m col b = do
  l ← blob_prefix unsupported_blob d pos m
  b' ←
      if is_json col.query_type
      then (do
        s ← slice d (pos + m) l
        doc ← assert (x.json_text s)
        append_as utf8 (binary_value doc) b)
      else append_blob x col b.kind l (slice d (pos + m) l) b
  done (l + m, b')

unfoldable pub cell_geometry : Bytes → ℕ → ℕ → Builder → Cell (ℕ × Builder)
cell_geometry d pos m b = do
  l ← blob_prefix unsupported_geometry d pos m
  src ← slice d (pos + m) l
  b' ← append_as binary (binary_value src) b
  done (l + m, b')
