-- ===== src/Applier/RowEvents.antt =====
-- The row events of binlogreplication/binlog_replica_applier.go: processRowEvent, getTableSchema, and
-- writeChanges.
use Prim.Native.Nat.{bit_and}
use Prim.Native.String.{String}
use text.Mathlib.Text.{◌==◌ as same}
use myduckserver.Base.{
  ℕ, ◌-◌, ◌==◌, ltb, Bool, false, not, ◌&&◌, if◌then◌else◌, Option, none, some, List, [], ◌∷◌,
  length, Outcome, done, failed, panicked,
}
use myduckserver.Base.Actions.{Nothing, ◌>>=◌, ◌>>◌, modify, attempt}
use myduckserver.Base.Maps.{find_id}
use myduckserver.Filtering.{is_table_filtered_out}
use myduckserver.Delta.{RowEventType, delete_row_event, update_row_event, insert_row_event}
use myduckserver.Delta.Statements.{Column}
use myduckserver.Applier.{
  TableMap, BinlogRows, ReplicaTable, ApplyError, transaction_failed, parse_failed,
  unknown_table_id, table_lookup_failed, table_not_found, schema_mismatch, writer_failed,
  unsupported_flags, Applier, Apply, set_applier, in_database,
}
use myduckserver.Applier.Server.{Server}
use myduckserver.Applier.Commit.{record_error}
use myduckserver.Applier.Rows.{Rower, append_row_format_changes}
use myduckserver.Applier.RowParsing.{parse_rows}

-- flags &^ mask
abbrev pub clear_flags : ℕ → ℕ → ℕ
clear_flags mask flags = flags - bit_and flags mask

-- rowFlag_endOfStatement and rowFlag_noForeignKeyChecks
abbrev pub row_flag_end_of_statement : ℕ
row_flag_end_of_statement = 1

abbrev pub row_flag_no_foreign_key_checks : ℕ
row_flag_no_foreign_key_checks = 2

-- The flags that a table map or a row event has beside those two.
unfoldable pub unsupported : ℕ → ℕ
unsupported flags =
    clear_flags row_flag_no_foreign_key_checks (clear_flags row_flag_end_of_statement flags)

-- a.tablesByName[key]
unfoldable pub find_cached :
    String → String → List (String × String × ReplicaTable) → Option ReplicaTable
find_cached db name [] = none
find_cached db name ((d, n, t) ∷ ts) =
    if same d db && same n name then some t else find_cached db name ts

module _ {D T P X V B : Type 0} (v : Server D T P V) (w : Rower B X V) where
  abbrev pub write_parsed :
      TableMap
      → String
      → RowEventType
      → Bool
      → Outcome ApplyError (List (List V) × List (List V))
      → Apply D B P Nothing
  write_parsed t name event no_keys (done (is, ds)) r =
      (attempt transaction_failed (in_database v.get_txn)
          >> attempt writer_failed (in_database (v.write_rows t.database name event is ds no_keys)))
        r
  write_parsed t name event no_keys (failed e) r = (r, failed e)
  write_parsed t name event no_keys panicked r = (r, panicked)

  -- writeChanges
  unfoldable pub write_changes :
      TableMap → String → List Column → RowEventType → BinlogRows → Bool → Apply D B P Nothing
  write_changes t name schema event rows no_keys =
      write_parsed t name event no_keys (parse_rows w t schema rows rows.rows)

  abbrev pub remember : String → String → ReplicaTable → Applier B P → Applier B P
  remember db name table a = record a {
    tables_by_name = (v.lower db, v.lower name, table) ∷ a.tables_by_name;
  }

  abbrev pub asked : String → String → Option (Option ReplicaTable) → Apply D B P ReplicaTable
  asked db name none r = (r, failed table_lookup_failed)
  asked db name (some none) r = (r, failed table_not_found)
  asked db name (some (some table)) r = (set_applier (remember db name table) r, done table)

  -- getTableSchema: the table, which has its schema and its exact name.
  unfoldable pub get_table_schema : String → String → Apply D B P ReplicaTable
  get_table_schema name db r =
      elim (find_cached (v.lower db) (v.lower name) r.applier.tables_by_name) [
        | some table ↦ (r, done table)
        | none ↦ asked db name (v.get_table db name r.database) r
      ]

  -- isRowFormat: all columns are present.
  unfoldable pub is_row_format : RowEventType → BinlogRows → ℕ → Bool
  is_row_format delete_row_event rows n = rows.identify_columns.bit_count == n
  is_row_format update_row_event rows n =
      (rows.identify_columns.bit_count == n) && (rows.data_columns.bit_count == n)
  is_row_format insert_row_event rows n = rows.data_columns.bit_count == n

  abbrev pub append_in_buffer :
      TableMap → ReplicaTable → RowEventType → BinlogRows → Apply D B P Nothing
  append_in_buffer t table event rows r =
      let out = append_row_format_changes w t table.name table.schema event rows.rows r.applier in
      (record r { applier = out.0 }, out.1)

  -- The rows of a table that is known.
  unfoldable pub apply_rows :
      TableMap → RowEventType → BinlogRows → ReplicaTable → Apply D B P Nothing
  apply_rows t event rows table r =
      if not (length t.types == length table.schema)
      then (r, failed schema_mismatch)
      else if is_row_format event rows (length table.schema) && ltb 0 (length table.pk_ordinals)
      then append_in_buffer t table event rows r
      else (modify (set_applier (λ a. record a { ongoing_batch_txn = false }))
            >> write_changes t table.name table.schema event rows
                (ltb 0 (bit_and rows.flags row_flag_no_foreign_key_checks)))
          r

  -- The error of flags that are not supported, which is recorded only.
  unfoldable pub check_flags : ℕ → ℕ → Apply D B P Nothing
  check_flags now flags r =
      if unsupported flags == 0 then (r, done tt) else record_error v now unsupported_flags r

  -- The part of processRowEvent behind the filters.
  unfoldable pub process_rows :
      ℕ → TableMap → RowEventType → Option BinlogRows → Apply D B P Nothing
  process_rows now t event none r = (r, failed parse_failed)
  process_rows now t event (some rows) r =
      (check_flags now rows.flags
          >> (get_table_schema t.name t.database >>= apply_rows t event rows))
        r

  -- processRowEvent; `rows` is event.Rows for a table map.
  unfoldable pub process_row_event :
      ℕ → RowEventType → ℕ → (TableMap → Option BinlogRows) → Apply D B P Nothing
  process_row_event now event id rows r = elim (find_id id r.applier.table_maps_by_id) [
    | none ↦ (r, failed unknown_table_id)
    | some t ↦
        if same t.database "mysql"
        then (r, done tt)
        else if is_table_filtered_out v.lower r.applier.filters t.database t.name
        then (r, done tt)
        else process_rows now t event (rows t) r
  ]
