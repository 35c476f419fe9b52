-- ===== src/Applier/RowParsing.antt =====
-- parseRow and the loop of writeChanges in binlogreplication/binlog_replica_applier.go: the rows of an event
-- as rows of go-mysql-server.
use myduckserver.Base.{
  ℕ, ◌+◌, not, if◌then◌else◌, Option, none, some, List, [], ◌∷◌, get_elem?, Outcome, done, failed,
  panicked, ◌>>=◌,
}
use myduckserver.Charset.{Bytes}
use myduckserver.Delta.Statements.{Column}
use myduckserver.Applier.{
  TableMap, Bitmap, BinlogRow, BinlogRows, ApplyError, cell_failed, convert_failed,
}
use myduckserver.Applier.Rows.{Rower}

module _ {B X V : Type 0} (w : Rower B X V) where
  abbrev parsed_value : Column → Option (X × ℕ) → Outcome ApplyError (V × ℕ)
  parsed_value c none = failed cell_failed
  parsed_value c (some (x, n)) = elim (w.convert_value c x) [
    | none ↦ failed convert_failed
    | some y ↦ done (y, n)
  ]

  -- The value of a column that is present, and the bytes that it takes.
  unfoldable pub parse_value :
      Bitmap → Bytes → ℕ → ℕ → Option ℕ → ℕ → Option Column → Outcome ApplyError (V × ℕ)
  parse_value nulls d i pos m t (some c) =
      if nulls.bit i
      then done (w.null_value, 0)
      else elim m [ none ↦ panicked | some k ↦ parsed_value c (w.parse_cell d pos t k c) ]
  parse_value nulls d i pos m t none = panicked

  -- parseRow: the loop over the types from index `i`; a column that is not present is nil.
  unfoldable pub parse_row :
      List ℕ → List Column → Bitmap → Bitmap → Bytes → ℕ → ℕ → List ℕ → Outcome ApplyError (List V)
  parse_row metadata schema present nulls d i pos [] = done []
  parse_row metadata schema present nulls d i pos (t ∷ ts) =
      if not (present.bit i)
      then (parse_row metadata schema present nulls d (i + 1) pos ts >>= λ vs.
          done (w.null_value ∷ vs))
      else parse_value nulls d i pos (get_elem? metadata i) t (get_elem? schema i) >>= λ (y, n).
          parse_row metadata schema present nulls d (i + 1) (pos + n) ts >>= λ vs. done (y ∷ vs)

  -- A row is nil where the event has no bytes for it.
  abbrev parse_image :
      TableMap → List Column → Bitmap → Bitmap → Bytes → Outcome ApplyError (List V)
  parse_image t schema present nulls [] = done []
  parse_image t schema present nulls (b ∷ bs) =
      parse_row t.metadata schema present nulls (b ∷ bs) 0 0 t.types

  -- The loop of writeChanges: identityRows and dataRows.
  unfoldable pub parse_rows :
      TableMap
      → List Column
      → BinlogRows
      → List BinlogRow
      → Outcome ApplyError (List (List V) × List (List V))
  parse_rows t schema rows [] = done ([], [])
  parse_rows t schema rows (r ∷ rs) =
      parse_image t schema rows.identify_columns r.null_identify_columns r.identify >>= λ identity.
      parse_image t schema rows.data_columns r.null_columns r.content >>= λ row.
      parse_rows t schema rows rs >>= λ (is, ds). done (identity ∷ is, row ∷ ds)
