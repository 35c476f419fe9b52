-- ===== src/Logrepl/Messages.antt =====
-- processMessage of pgserver/logrepl/replication.go, a function for each of its larger cases.
use Prim.Native.String.{String}
use myduckserver.Base.{
  ℕ, ◌+◌, ltb, Bool, true, false, if◌then◌else◌, Option, none, some, List, [], ◌∷◌, done,
}
use myduckserver.Base.Actions.{Nothing, ◌>>=◌, ◌>>◌, pure, fail, read, modify, attempt, ignoring}
use myduckserver.Delta.{ddl_stmt, dml_stmt, delete_row_event, update_row_event, insert_row_event}
use myduckserver.Delta.Statements.{Column}
use myduckserver.Delta.Flush.{Engine}
use myduckserver.Logrepl.{
  RelationColumn, Relation, OldTuple, key_tuple, old_tuple, no_tuple, Message, relation_message,
  begin_message, commit_message, insert_message, update_message, delete_message, truncate_message,
  stream_start, stream_stop, other_message, parse_failed, unsupported_type, missing_old_tuple,
  statement_failed, transaction_failed, State, find_id, put_id, Step, set_state, on_database,
}
use myduckserver.Logrepl.Ddl.{generate_create_table_stmt}
use myduckserver.Logrepl.Session.{Session}
use myduckserver.Logrepl.Rows.{Writer, append_in, truncate_all}
use myduckserver.Logrepl.Commit.{may_extend_batch_txn, commit_ongoing_txn, flush_delta_buffer}

-- What the messages use beside the session and the engine: NewPostgresType, of which isTimestampType is
-- kept, and the names of the DuckDB types.
pub record Types : Type 0 where
  pub new_postgres_type : RelationColumn → Option Bool
  pub type_name_of : ℕ → Option String

-- The sql.Schema of a relation, where each of its types is known.
unfoldable pub schema_of_columns : Types → List RelationColumn → Option (List Column)
schema_of_columns ty [] = some []
schema_of_columns ty (c ∷ cs) = elim (ty.new_postgres_type c) [
  | none ↦ none
  | some is_timestamp ↦ elim (schema_of_columns ty cs) [
    | none ↦ none
    | some rest ↦
        some (record { name = c.name; is_timestamp = is_timestamp; primary_key = c.is_key } ∷ rest)
  ]
]

unfoldable pub key_positions : ℕ → List RelationColumn → List ℕ
key_positions i [] = []
key_positions i (c ∷ cs) =
    let rest = key_positions (i + 1) cs in if c.is_key then i ∷ rest else rest

abbrev pub is_known {ℓ} : {A : Type ℓ} → Option A → Bool
is_known none = false
is_known (some a) = true

-- The last received position never goes back here.
unfoldable pub receive : {B : Type 0} → ℕ → State B → State B
receive wal_end s = record s {
  last_received_lsn = if ltb s.last_received_lsn wal_end then wal_end else s.last_received_lsn;
}

-- The flags behind a change of rows.
unfoldable pub changed : {B : Type 0} → State B → State B
changed s = record s {
  dirty_txn = true;
  dirty_stream = true;
  in_txn_stmt_id = s.in_txn_stmt_id + 1;
}

module _ {D T B R : Type 0} (db : Session D T) (e : Engine D B R) (x : Writer B) (ty : Types)
    (no_index : Bool) where
  -- A change of rows, which a stale transaction skips.
  unfoldable pub unless_stale : Step D B Nothing → Step D B Bool
  unless_stale change r =
      if r.state.process_messages
      then (change >> (modify (set_state changed) >> pure false)) r
      else (r, done false)

  unfoldable pub create_table : Relation → Step D B Nothing
  create_table rel =
      attempt statement_failed
        (on_database (db.exec_catalog (generate_create_table_stmt ty.type_name_of no_index rel)))

  abbrev set_schema : ℕ → Relation → List Column → State B → State B
  set_schema id rel schema s = record s {
    schemas = put_id id schema s.schemas;
    keys = put_id id (key_positions 0 rel.columns) s.keys;
  }

  unfoldable pub set_types : ℕ → Relation → Step D B Nothing
  set_types id rel = elim (schema_of_columns ty rel.columns) [
    | none ↦ fail unsupported_type
    | some schema ↦ modify (set_state (set_schema id rel schema))
  ]

  unfoldable pub process_relation : ℕ → ℕ → Relation → Step D B Bool
  process_relation now id rel = do
    exists ← read (λ r. is_known (find_id id r.state.relations))
    if exists then commit_ongoing_txn db e no_index now ddl_stmt else pure tt
    modify (set_state (λ s. record s { relations = put_id id rel s.relations }))
    set_types id rel
    create_table rel
    pure false

  -- The batch is committed unless it may be extended.
  unfoldable pub commit_unless_extended : ℕ → Step D B Nothing → Step D B Nothing
  commit_unless_extended now next = do
    may ← read (λ r. may_extend_batch_txn now r.state)
    if may.0 then pure tt else (commit_ongoing_txn db e no_index now may.1 >> next)

  unfoldable pub open_txn : Step D B Nothing
  open_txn =
      attempt transaction_failed (on_database db.get_catalog_txn)
      >> modify (set_state (λ s. record s { ongoing_batch_txn = true }))

  unfoldable pub process_begin : ℕ → ℕ → Step D B Bool
  process_begin now final_lsn r =
      if ltb final_lsn r.state.last_written_lsn
      then (set_state (λ s. record s { process_messages = false }) r, done false)
      else (do
        modify (
            set_state
              (λ s. record s { process_messages = true; current_transaction_lsn = final_lsn }))
        commit_unless_extended now open_txn
        pure false)
          r

  unfoldable pub process_commit : ℕ → ℕ → Step D B Bool
  process_commit now commit_lsn = do
    modify (
        set_state
          (λ s. record s { last_commit_lsn = commit_lsn; commit_count = s.commit_count + 1 }))
    commit_unless_extended now (pure tt)
    modify (
        set_state
          (λ s. record s { dirty_stream = false; in_txn_stmt_id = 0; process_messages = false }))
    pure true

  unfoldable pub append_old : ℕ → OldTuple → Step D B Nothing
  append_old id (key_tuple t) = append_in x id t delete_row_event update_row_event true
  append_old id (old_tuple t) = append_in x id t delete_row_event update_row_event false
  append_old id no_tuple = append_in x id [] delete_row_event update_row_event true

  unfoldable pub append_deleted : ℕ → OldTuple → Step D B Nothing
  append_deleted id (key_tuple t) = append_in x id t delete_row_event delete_row_event true
  append_deleted id (old_tuple t) = append_in x id t delete_row_event delete_row_event false
  append_deleted id no_tuple = fail missing_old_tuple

  unfoldable pub process : ℕ → Message → Step D B Bool
  process now (relation_message id rel) = process_relation now id rel
  process now (begin_message lsn) = process_begin now lsn
  process now (commit_message lsn) = process_commit now lsn
  process now (insert_message id t) =
      unless_stale (append_in x id t insert_row_event insert_row_event false)
  process now (update_message id old new) =
      unless_stale (append_old id old >> append_in x id new insert_row_event update_row_event false)
  process now (delete_message id old) = unless_stale (append_deleted id old)
  process now (truncate_message ids) =
      unless_stale
        (ignoring (flush_delta_buffer db e no_index false dml_stmt) >> truncate_all db ids)
  process now stream_start = modify (set_state (λ s. record s { in_stream = true })) >> pure false
  process now stream_stop = modify (set_state (λ s. record s { in_stream = false })) >> pure false
  process now other_message = pure false

  -- processMessage: whether the message is to be acknowledged. `parsed` is the result of ParseV2, and
  -- `wal_end` is ServerWALEnd.
  unfoldable pub process_message : ℕ → ℕ → Option Message → Step D B Bool
  process_message now wal_end none = fail parse_failed
  process_message now wal_end (some m) = modify (set_state (receive wal_end)) >> process now m
