-- ===== src/Applier/Rows.antt =====
-- appendRowFormatChanges of binlogreplication/binlog_replica_applier.go: how the rows of an event reach the
-- delta buffer.
use Prim.Native.String.{String}
use myduckserver.Base.{
  ℕ, ◌+◌, if◌then◌else◌, Option, none, some, List, [], ◌∷◌, length, get_elem?, Outcome, done,
  failed, panicked,
}
use myduckserver.Base.Actions.{Action, Nothing, ◌>>=◌, ◌>>◌, pure, modify}
use myduckserver.Charset.{Bytes}
use myduckserver.Delta.{
  RowEventType, delete_row_event, update_row_event, insert_row_event, event_code,
  update_action_stats, observe_events,
}
use myduckserver.Delta.Statements.{Column, TableIdentifier}
use myduckserver.Delta.Flush.{Appender}
use myduckserver.Delta.Flush.Controller.{Tables, put_appender, get_delta_appender}
use myduckserver.Applier.{
  Gtid, mysql56_gtid, file_pos_gtid, mariadb_gtid, TableMap, Bitmap, BinlogRow, ApplyError,
  cell_failed, Applier, add_uint64,
}

-- txnTag, txnServer, txnGroup and txnSeq; strconv.AppendUint gives the bytes of a number's digits.
pub record TxnMark : Type 0 where
  pub tag : Bytes
  pub server : Bytes
  pub group : Bytes
  pub seq : ℕ

-- The builders of a delta appender, with binlog.CellValue on a field's builder, and the parsing of a row
-- for a table writer: an `X` is a value of Vitess, a `V` one of go-mysql-server.
pub record Rower (B X V : Type 0) : Type 0 where
  pub new_builder : List Column → Outcome ApplyError B
  pub append_txn : ℕ → TxnMark → ℕ → B → B
  pub append_null : ℕ → B → B
  -- the data, the position, the type and the metadata of a cell, the column and its index
  pub cell_value : Bytes → ℕ → ℕ → ℕ → Column → ℕ → B → B × Option ℕ
  pub parse_cell : Bytes → ℕ → ℕ → ℕ → Column → Option (X × ℕ)
  pub null_value : V
  -- convertSqlTypesValue of a value that is not null
  pub convert_value : Column → X → Option V
  pub append_uint : ℕ → Bytes

module _ {B X V : Type 0} (w : Rower B X V) where
  -- The switch on the type of the current GTID.
  unfoldable pub txn_mark : Option Gtid → TxnMark
  txn_mark (some (mysql56_gtid server sequence)) = record {
    tag = [];
    server = server;
    group = [];
    seq = sequence;
  }
  txn_mark (some (file_pos_gtid file pos)) = record {
    tag = [];
    server = [];
    group = file;
    seq = pos;
  }
  txn_mark (some (mariadb_gtid domain server sequence)) = record {
    tag = w.append_uint domain;
    server = w.append_uint server;
    group = [];
    seq = sequence;
  }
  txn_mark _ = record { tag = []; server = []; group = []; seq = 0 }

  abbrev pub appended : B × Option ℕ → B × Outcome ApplyError ℕ
  appended (b, none) = (b, failed cell_failed)
  appended (b, some n) = (b, done n)

  abbrev pub append_cell : Bytes → ℕ → Option ℕ → Option ℕ → Column → ℕ → Action B ApplyError ℕ
  append_cell d pos (some t) (some m) col i b = appended (w.cell_value d pos t m col i b)
  append_cell d pos _ _ col i b = (b, panicked)

  -- The loop over the columns from index `i`: the position behind the last cell.
  unfoldable pub append_cells :
      TableMap → Bitmap → Bytes → ℕ → ℕ → List Column → Action B ApplyError ℕ
  append_cells t nulls d i pos [] = pure pos
  append_cells t nulls d i pos (c ∷ cs) =
      if nulls.bit i
      then (modify (w.append_null i) >> append_cells t nulls d (i + 1) pos cs)
      else append_cell d pos (get_elem? t.types i) (get_elem? t.metadata i) c i >>= λ n.
          append_cells t nulls d (i + 1) (pos + n) cs

  -- The images of one kind: the appender, and the bytes of the rows that are whole.
  abbrev pub Images : Type 0
  Images = Appender B × ℕ

  abbrev pub sized : Appender B → ℕ → B × Outcome ApplyError ℕ → Images × Outcome ApplyError Nothing
  sized a n (b, done pos) = ((record a { builder = b }, add_uint64 n pos), done tt)
  sized a n (b, failed e) = ((record a { builder = b }, n), failed e)
  sized a n (b, panicked) = ((record a { builder = b }, n), panicked)

  -- One row of a loop over the images.
  unfoldable pub append_image :
      TableMap
      → List Column
      → RowEventType
      → TxnMark
      → ℕ
      → Bitmap
      → Bytes
      → Action Images ApplyError Nothing
  append_image t schema action mark stmt nulls d (a, n) =
      sized a n
        (append_cells t nulls d 0 0 schema (w.append_txn (event_code action) mark stmt a.builder))

  abbrev pub image_nulls : RowEventType → BinlogRow → Bitmap
  image_nulls delete_row_event r = r.null_identify_columns
  image_nulls _ r = r.null_columns

  abbrev pub image_of : RowEventType → BinlogRow → Bytes
  image_of delete_row_event r = r.identify
  image_of _ r = r.content

  -- The loop over the rows; `action` is the delete of a before image or the insert of an after image.
  unfoldable pub append_images :
      TableMap
      → List Column
      → RowEventType
      → TxnMark
      → ℕ
      → List BinlogRow
      → Action Images ApplyError Nothing
  append_images t schema action mark stmt [] = pure tt
  append_images t schema action mark stmt (r ∷ rs) =
      append_image t schema action mark stmt (image_nulls action r) (image_of action r)
      >> append_images t schema action mark stmt rs

  -- A loop, then UpdateActionStats.
  unfoldable pub append_action :
      TableMap
      → List Column
      → RowEventType
      → TxnMark
      → ℕ
      → List BinlogRow
      → Action Images ApplyError Nothing
  append_action t schema action mark stmt rs =
      append_images t schema action mark stmt rs
      >> modify
          (λ (a, n). (record a { counters = update_action_stats action (length rs) a.counters }, n))

  abbrev pub observe : RowEventType → ℕ → Images → Images
  observe event k (a, n) = (record a { counters = observe_events event k a.counters }, n)

  -- The two switches on the event, and ObserveEvents.
  unfoldable pub append_event :
      TableMap
      → List Column
      → RowEventType
      → TxnMark
      → ℕ
      → List BinlogRow
      → Action Images ApplyError Nothing
  append_event t schema delete_row_event mark stmt rs =
      append_action t schema delete_row_event mark stmt rs
      >> modify (observe delete_row_event (length rs))
  append_event t schema insert_row_event mark stmt rs =
      append_action t schema insert_row_event mark stmt rs
      >> modify (observe insert_row_event (length rs))
  append_event t schema update_row_event mark stmt rs =
      append_action t schema delete_row_event mark stmt rs
      >> (append_action t schema insert_row_event mark stmt rs
          >> modify (observe update_row_event (length rs)))

  abbrev pub put_images :
      {P : Type 0}
      → TableIdentifier
      → Applier B P
      → Images × Outcome ApplyError Nothing
      → Applier B P × Outcome ApplyError Nothing
  put_images t s ((a, n), o) =
      (record s { deltas = put_appender t a s.deltas; delta_buf_size = n }, o)

  abbrev pub append_with :
      {P : Type 0}
      → TableMap
      → TableIdentifier
      → List Column
      → RowEventType
      → List BinlogRow
      → Applier B P
      → Outcome ApplyError (Appender B × Tables B)
      → Applier B P × Outcome ApplyError Nothing
  append_with t id schema event rs s (done (a, ts)) =
      put_images id (record s { deltas = ts })
        (append_event t schema event (txn_mark s.current_gtid) s.in_txn_stmt_id rs
          (a, s.delta_buf_size))
  append_with t id schema event rs s (failed e) = (s, failed e)
  append_with t id schema event rs s panicked = (s, panicked)

  -- appendRowFormatChanges
  unfoldable pub append_row_format_changes :
      {P : Type 0}
      → TableMap
      → String
      → List Column
      → RowEventType
      → List BinlogRow
      → Applier B P
      → Applier B P × Outcome ApplyError Nothing
  append_row_format_changes t name schema event rs s =
      let id : TableIdentifier = record { db_name = t.database; table_name = name } in
      append_with t id schema event rs s (get_delta_appender w.new_builder id schema s.deltas)
