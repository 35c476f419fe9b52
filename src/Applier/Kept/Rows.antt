-- ===== src/Applier/Kept/Rows.antt =====
-- What the row events keep.
use Prim.Native.String.{String}
use text.Mathlib.Text.{◌==◌ as same}
use myduckserver.Base.{
  ℕ, ◌==◌, ltb, Bool, not, ◌&&◌, if◌then◌else◌, Option, none, some, List, Outcome, done, failed,
  panicked, length, ◌≡◌, refl,
}
use myduckserver.Base.Actions.{
  Nothing, Keeps, >>-Keeps, >>=-Keeps, modify-Keeps, attempt-Keeps, choice-Keeps, here-Keeps,
  match-Keeps,
}
use myduckserver.Base.Maps.{find_id}
use myduckserver.Filtering.{is_table_filtered_out}
use myduckserver.Delta.{RowEventType}
use myduckserver.Delta.Statements.{Column, TableIdentifier}
use myduckserver.Delta.Flush.{Engine, Appender}
use myduckserver.Delta.Flush.Controller.{Tables}
use myduckserver.Applier.{
  Gtid, Positions, TableMap, BinlogRow, BinlogRows, ReplicaTable, ApplyError, Applier, Applying,
}
use myduckserver.Applier.Server.{Server}
use myduckserver.Applier.Rows.{
  Rower, append_with, put_images, append_event, txn_mark, append_row_format_changes, Images,
}
use myduckserver.Applier.RowEvents.{
  unsupported, write_parsed, write_changes, asked, get_table_schema, is_row_format,
  append_in_buffer, apply_rows, check_flags, process_rows, process_row_event,
}
use myduckserver.Applier.Kept.{Core, core, Changes, Holds, record_error-Holds}

module _ {B X V : Type 0} (w : Rower B X V) where
  put_images-core :
      {P : Type 0} (t : TableIdentifier) (a : Applier B P)
      (q : Images w × Outcome ApplyError Nothing)
      → core (put_images w t a q).0 ≡ core a
  put_images-core t a ((x, n), o) = refl

  append_with-core :
      {P : Type 0} (t : TableMap) (id : TableIdentifier) (schema : List Column)
      (event : RowEventType) (rs : List BinlogRow) (a : Applier B P)
      (q : Outcome ApplyError (Appender B × Tables B))
      → core (append_with w t id schema event rs a q).0 ≡ core a
  append_with-core t id schema event rs a (done (x, ts)) =
      put_images-core id (record a { deltas = ts })
        (append_event w t schema event (txn_mark w a.current_gtid) a.in_txn_stmt_id rs
          (x, a.delta_buf_size))
  append_with-core t id schema event rs a (failed err) = refl
  append_with-core t id schema event rs a panicked = refl

  append_row_format_changes-core :
      {P : Type 0} (t : TableMap) (name : String) (schema : List Column) (event : RowEventType)
      (rs : List BinlogRow) (a : Applier B P)
      → core (append_row_format_changes w t name schema event rs a).0 ≡ core a
  unfolding append_row_format_changes
  append_row_format_changes-core t name schema event rs a = append_with-core t _ schema event rs a _

module _ {D T P X V B R O : Type 0} {v : Server D T P V} {p : Positions P} {e : Engine D B R}
    {o : D → O} {J : Core P → O → Type 0} {G : Gtid → Type 0} (laws : Changes v p e o J G)
    (w : Rower B X V) where
  write_parsed-Holds :
      (t : TableMap) (name : String) (event : RowEventType) (b : Bool)
      (q : Outcome ApplyError (List (List V) × List (List V)))
      → Keeps (Holds o J) (write_parsed v w t name event b q)
  write_parsed-Holds t name event b (done (is, ds)) =
      >>-Keeps (attempt-Keeps _ _ (λ r h. laws.serving.get_txn _ r.database h)) (
        attempt-Keeps _ _
          (λ r h. laws.serving.write_rows _ t.database name event is ds b r.database h))
  write_parsed-Holds t name event b (failed err) = here-Keeps _
  write_parsed-Holds t name event b panicked = here-Keeps _

  write_changes-Holds :
      (t : TableMap) (name : String) (schema : List Column) (event : RowEventType)
      (rows : BinlogRows) (b : Bool)
      → Keeps (Holds o J) (write_changes v w t name schema event rows b)
  unfolding write_changes
  write_changes-Holds t name schema event rows b = write_parsed-Holds t name event b _

  asked-Holds :
      (db name : String) (q : Option (Option ReplicaTable))
      → Keeps (Holds o J) (asked v w db name q)
  asked-Holds db name none = here-Keeps _
  asked-Holds db name (some none) = here-Keeps _
  asked-Holds db name (some (some t)) = record { keeps = λ r h. h }

  got-Holds :
      (db name : String) (q : Option ReplicaTable)
      → (r : Applying D B P) → Holds o J r
      → Holds o J
          (elim q as (λ _. Applying D B P × Outcome ApplyError ReplicaTable) [
            | some table ↦ (r, done table)
            | none ↦ asked v w db name (v.get_table db name r.database) r
          ]).0
  got-Holds db name (some t) r h = h
  got-Holds db name none r h = (asked-Holds db name _).keeps r h

  get_table_schema-Holds : (name db : String) → Keeps (Holds o J) (get_table_schema v w name db)
  unfolding get_table_schema
  get_table_schema-Holds name db = record { keeps = λ r h. got-Holds db name _ r h }

  append_in_buffer-Holds :
      (t : TableMap) (table : ReplicaTable) (event : RowEventType) (rows : BinlogRows)
      → Keeps (Holds o J) (append_in_buffer v w t table event rows)
  append_in_buffer-Holds t table event rows = record {
    keeps = λ r h.
        rw (append_row_format_changes-core w t table.name table.schema event rows.rows r.applier) h;
  }

  apply_rows-Holds :
      (t : TableMap) (event : RowEventType) (rows : BinlogRows) (table : ReplicaTable)
      → Keeps (Holds o J) (apply_rows v w t event rows table)
  unfolding apply_rows
  apply_rows-Holds t event rows table =
      choice-Keeps (λ r. not (length t.types == length table.schema)) (here-Keeps _)
        (choice-Keeps
          (λ r.
            is_row_format v w event rows (length table.schema) && ltb 0 (length table.pk_ordinals))
          (append_in_buffer-Holds t table event rows)
          (>>-Keeps (modify-Keeps _ (λ r h. laws.unbatched _ _ h))
            (write_changes-Holds t table.name table.schema event rows _)))

  check_flags-Holds : (now flags : ℕ) → Keeps (Holds o J) (check_flags v w now flags)
  unfolding check_flags
  check_flags-Holds now flags =
      choice-Keeps (λ r. unsupported flags == 0) (here-Keeps _) (record_error-Holds o J v now _)

  process_rows-Holds :
      (now : ℕ) (t : TableMap) (event : RowEventType) (q : Option BinlogRows)
      → Keeps (Holds o J) (process_rows v w now t event q)
  unfolding process_rows
  process_rows-Holds now t event none = here-Keeps _
  process_rows-Holds now t event (some rows) =
      >>-Keeps (check_flags-Holds now rows.flags)
        (>>=-Keeps (get_table_schema-Holds t.name t.database) (apply_rows-Holds t event rows))

  mapped-Holds :
      (now : ℕ) (event : RowEventType) (rows : TableMap → Option BinlogRows) (t : TableMap)
      → Keeps (Holds o J) (λ r.
        if same t.database "mysql"
        then (r, done tt)
        else if is_table_filtered_out v.lower r.applier.filters t.database t.name
        then (r, done tt)
        else process_rows v w now t event (rows t) r)
  mapped-Holds now event rows t =
      choice-Keeps (λ r. same t.database "mysql") (here-Keeps _)
        (choice-Keeps (λ r. is_table_filtered_out v.lower r.applier.filters t.database t.name)
          (here-Keeps _) (process_rows-Holds now t event (rows t)))

  pub process_row_event-Holds :
      (now : ℕ) (event : RowEventType) (id : ℕ) (rows : TableMap → Option BinlogRows)
      → Keeps (Holds o J) (process_row_event v w now event id rows)
  unfolding process_row_event
  process_row_event-Holds now event id rows =
      match-Keeps (λ r. find_id id r.applier.table_maps_by_id) (here-Keeps _)
        (mapped-Holds now event rows)
