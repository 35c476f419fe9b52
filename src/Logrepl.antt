-- ===== src/Logrepl.antt =====
-- pgserver/logrepl: the logical replication of PostgreSQL. This file has the messages, the relations and
-- the replication state; the children have the operations of pgserver/logrepl/replication.go.
--
-- A message is what pglogrepl.ParseV2 makes of the WAL data, as far as processMessage looks at it. A log
-- position (LSN) is a number. Go's maps are lists of pairs. Logging is left out.
pub mod Ddl
pub mod Session
pub mod Rows
pub mod Commit
pub mod Messages
pub mod Loop
pub mod Durable
pub mod Acknowledged
pub mod Failures
pub mod Stale
pub mod Progress
use Prim.Native.String.{String}
use myduckserver.Base.{
  ℕ, ◌==◌, Bool, true, false, if◌then◌else◌, Option, none, some, List, [], ◌∷◌, Outcome,
}
pub use myduckserver.Base.Maps.{find_id, put_id}
use myduckserver.Base.Int.{ℤ}
use myduckserver.Base.Actions.{Action}
use myduckserver.Charset.{Bytes}
use myduckserver.Delta.Statements.{Column}
use myduckserver.Delta.Flush.{FlushError}
use myduckserver.Delta.Flush.Controller.{Tables}

-- pglogrepl.RelationMessageColumn; `is_key` is Flags == 1.
pub record RelationColumn : Type 0 where
  pub name : String
  pub is_key : Bool
  pub data_type : ℕ
  pub type_modifier : ℤ

-- pglogrepl.RelationMessageV2
pub record Relation : Type 0 where
  pub namespace : String
  pub relation_name : String
  pub columns : List RelationColumn

-- The formats of pglogrepl.TupleDataColumn, and any other byte.
pub data TupleFormat : Type 0 where
  null text binary : TupleFormat
  other_format : ℕ → TupleFormat

pub record TupleColumn : Type 0 where
  pub format : TupleFormat
  pub content : Bytes

abbrev pub Tuple : Type 0
Tuple = List TupleColumn

-- OldTupleType of an update or a delete
pub data OldTuple : Type 0 where
  key_tuple old_tuple : Tuple → OldTuple
  no_tuple : OldTuple

pub data Message : Type 0 where
  relation_message : ℕ → Relation → Message
  begin_message : ℕ → Message
  commit_message : ℕ → Message
  insert_message : ℕ → Tuple → Message
  update_message : ℕ → OldTuple → Tuple → Message
  delete_message : ℕ → OldTuple → Message
  truncate_message : List ℕ → Message
  stream_start stream_stop other_message : Message

pub data LogError : Type 0 where
  parse_failed unknown_relation appender_failed empty_tuple decode_failed unsupported_format :
      LogError
  unsupported_type missing_old_tuple connection_failed transaction_failed statement_failed :
      LogError
  lsn_failed commit_failed : LogError
  flush_failed : FlushError → LogError

-- replicationState. The positions and the size of the buffer, uint64 in the source, are natural numbers: none is
-- near 2 ^ 64. The context, the slot name and the type map do not change; `keys` is only written.
pub record State (B : Type 0) : Type 0 where
  pub last_written_lsn : ℕ
  pub last_received_lsn : ℕ
  pub current_transaction_lsn : ℕ
  pub last_commit_lsn : ℕ
  pub in_stream : Bool
  pub process_messages : Bool
  pub relations : List (ℕ × Relation)
  pub schemas : List (ℕ × List Column)
  pub keys : List (ℕ × List ℕ)
  pub deltas : Tables B
  pub delta_buf_size : ℕ
  pub last_commit_time : ℕ
  pub commit_count : ℕ
  pub ongoing_batch_txn : Bool
  pub dirty_txn : Bool
  pub dirty_stream : Bool
  pub in_txn_stmt_id : ℕ

-- The state that reset leaves; it closes the deltas, and NewController starts without a table.
unfoldable pub reset : {B : Type 0} → ℕ → ℕ → State B
reset lsn now = record {
  last_written_lsn = lsn;
  last_received_lsn = 0;
  current_transaction_lsn = 0;
  last_commit_lsn = lsn;
  in_stream = false;
  process_messages = false;
  relations = [];
  schemas = [];
  keys = [];
  deltas = [];
  delta_buf_size = 0;
  last_commit_time = now;
  commit_count = 0;
  ongoing_batch_txn = false;
  dirty_txn = false;
  dirty_stream = false;
  in_txn_stmt_id = 0;
}

-- The state of the replicator and the database.
pub record Replica (D B : Type 0) : Type 0 where
  pub state : State B
  pub database : D

abbrev pub Step : Type 0 → Type 0 → Type 0 → Type 0
Step D B A = Action (Replica D B) LogError A

abbrev pub set_state : {D B : Type 0} → (State B → State B) → Replica D B → Replica D B
set_state f r = record r { state = f r.state }

-- A change of the database beside the state.
abbrev pub on_database : {D B A : Type 0} → (D → D × A) → Replica D B → Replica D B × A
on_database f r = (record r { database = (f r.database).0 }, (f r.database).1)
