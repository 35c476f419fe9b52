-- ===== src/Applier.antt =====
-- binlogreplication/binlog_replica_applier.go: the replica of a MySQL or MariaDB primary. This file has what
-- the applier reads and keeps; the children have its operations.
--
-- What Vitess, go-mysql-server and database/sql do is a parameter. Go's maps are lists of pairs, an atomic
-- field is a field, a time is a number of milliseconds. Logging is left out.
pub mod Statements
pub mod Server
pub mod Commit
pub mod Connecting
pub mod Query
pub mod Rows
pub mod RowParsing
pub mod RowEvents
pub mod Variables
pub mod Events
pub mod Loop
pub mod Kept
pub mod Flags
pub mod Announced
pub mod Settled
pub mod StoredPosition
pub mod Begins
pub mod Turns
pub mod Counted
pub mod Mapped
use Prim.Native.String.{String}
use myduckserver.Base.{
  ℕ, ◌+◌, ◌*◌, ◌^◌, ◌%◌, Bool, true, false, if◌then◌else◌, Option, none, some, List, [], ◌∷◌, take,
}
use myduckserver.Base.Actions.{Action}
use myduckserver.Charset.{Bytes}
use myduckserver.Filtering.{FilterConfiguration}
use myduckserver.Delta.{RowEventType}
use myduckserver.Delta.Statements.{Column}
use myduckserver.Delta.Flush.{FlushError}
use myduckserver.Delta.Flush.Controller.{Tables}

-- The types of replication.GTID that the applier tells apart.
pub data Gtid : Type 0 where
  mysql56_gtid : Bytes → ℕ → Gtid
  file_pos_gtid : Bytes → ℕ → Gtid
  mariadb_gtid : ℕ → ℕ → ℕ → Gtid
  other_gtid : ℕ → Gtid

-- replication.Position: the zero value, AppendGTID and IsZero
pub record Positions (P : Type 0) : Type 0 where
  pub zero_position : P
  pub append_gtid : P → Option Gtid → P
  pub is_zero : P → Bool

-- What is used of mysql.BinlogFormat.
pub record BinlogFormat : Type 0 where
  pub format_version : ℕ
  pub header_length : ℕ
  pub checksum_algorithm : ℕ

-- mysql.TableMap
pub record TableMap : Type 0 where
  pub flags : ℕ
  pub database : String
  pub name : String
  pub types : List ℕ
  pub metadata : List ℕ

-- mysql.Bitmap: BitCount and Bit
pub record Bitmap : Type 0 where
  pub bit_count : ℕ
  pub bit : ℕ → Bool

-- mysql.Row, whose Data is `content` here, and mysql.Rows
pub record BinlogRow : Type 0 where
  pub null_identify_columns : Bitmap
  pub null_columns : Bitmap
  pub identify : Bytes
  pub content : Bytes

pub record BinlogRows : Type 0 where
  pub flags : ℕ
  pub identify_columns : Bitmap
  pub data_columns : Bitmap
  pub rows : List BinlogRow

-- mysql.Query
pub record BinlogQuery : Type 0 where
  pub database : String
  pub sql : String

-- sql.Table: its exact name, and the schema with the ordinals of the primary key
pub record ReplicaTable : Type 0 where
  pub name : String
  pub schema : List Column
  pub pk_ordinals : List ℕ

pub data ApplyError : Type 0 where
  empty_position save_failed connection_failed transaction_failed query_failed prepare_failed :
      ApplyError
  commit_failed parse_failed unknown_table_id table_lookup_failed table_not_found : ApplyError
  schema_mismatch appender_failed cell_failed convert_failed writer_failed : ApplyError
  checksum_failed unsupported_flags uuid_failed : ApplyError
  unknown_event_type : ℕ → ApplyError
  flush_failed : FlushError → ApplyError
  applying_failed : ApplyError → ApplyError

-- What the applier sets of binlogreplication.ReplicaStatus. A message is its bytes.
pub record ReplicaStatus : Type 0 where
  pub source_server_id : ℕ
  pub last_sql_error : Bytes
  pub last_sql_err_number : ℕ
  pub last_sql_error_timestamp : Option ℕ
  pub last_io_error : Bytes
  pub last_io_err_number : ℕ
  pub last_io_error_timestamp : Option ℕ

-- binlogReplicaApplier. The engine, the writers' provider and the stop channel do not change.
pub record Applier (B P : Type 0) : Type 0 where
  pub format : Option BinlogFormat
  pub table_maps_by_id : List (ℕ × TableMap)
  pub tables_by_name : List (String × String × ReplicaTable)
  pub current_gtid : Option Gtid
  pub previous_gtid : Option Gtid
  pub replication_source_uuid : String
  pub current_position : P
  pub pending_position : P
  pub filters : Option FilterConfiguration
  pub ongoing_batch_txn : Bool
  pub dirty_txn : Bool
  pub dirty_stream : Bool
  pub in_txn_stmt_id : ℕ
  pub delta_buf_size : ℕ
  pub last_commit_time : ℕ
  pub deltas : Tables B

-- newBinlogReplicaApplier; the controller of the deltas has no table yet.
unfoldable pub new_binlog_replica_applier :
    {B P : Type 0} → Positions P → Option FilterConfiguration → Applier B P
new_binlog_replica_applier p filters = record {
  format = none;
  table_maps_by_id = [];
  tables_by_name = [];
  current_gtid = none;
  previous_gtid = none;
  replication_source_uuid = "";
  current_position = p.zero_position;
  pending_position = p.zero_position;
  filters = filters;
  ongoing_batch_txn = false;
  dirty_txn = false;
  dirty_stream = false;
  in_txn_stmt_id = 0;
  delta_buf_size = 0;
  last_commit_time = 0;
  deltas = [];
}

-- The applier, the status that the controller shows, and the database.
pub record Applying (D B P : Type 0) : Type 0 where
  pub applier : Applier B P
  pub status : ReplicaStatus
  pub database : D

abbrev pub Apply : Type 0 → Type 0 → Type 0 → Type 0 → Type 0
Apply D B P A = Action (Applying D B P) ApplyError A

module _ {D B P : Type 0} where
  abbrev pub set_applier : (Applier B P → Applier B P) → Applying D B P → Applying D B P
  set_applier f r = record r { applier = f r.applier }

  abbrev pub set_status : (ReplicaStatus → ReplicaStatus) → Applying D B P → Applying D B P
  set_status f r = record r { status = f r.status }

  abbrev pub set_database : (D → D) → Applying D B P → Applying D B P
  set_database f r = record r { database = f r.database }

  -- A change of the database beside the rest.
  abbrev pub in_database : {A : Type 0} → (D → D × A) → Applying D B P → Applying D B P × A
  in_database f r = (record r { database = (f r.database).0 }, (f r.database).1)

-- sqlerror.ERUnknownError
abbrev pub er_unknown_error : ℕ
er_unknown_error = 1105

-- The message as it is shown: at most 256 bytes.
unfoldable pub truncate_message : Bytes → Bytes
truncate_message message = take 256 message

-- setSqlError of binlogreplication/binlog_replica_controller.go
unfoldable pub set_sql_error : ℕ → ℕ → Bytes → ReplicaStatus → ReplicaStatus
set_sql_error now errno message s = record s {
  last_sql_error_timestamp = some now;
  last_sql_err_number = errno;
  last_sql_error = truncate_message message;
}

-- setIoError of binlogreplication/binlog_replica_controller.go
unfoldable pub set_io_error : ℕ → ℕ → Bytes → ReplicaStatus → ReplicaStatus
set_io_error now errno message s = record s {
  last_io_error_timestamp = some now;
  last_io_err_number = errno;
  last_io_error = truncate_message message;
}

-- Add on an atomic.Uint64
abbrev pub add_uint64 : ℕ → ℕ → ℕ
add_uint64 a b = (a + b) % 2 ^ 64
