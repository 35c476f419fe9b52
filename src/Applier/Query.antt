-- ===== src/Applier/Query.antt =====
-- executeQueryWithEngine of binlogreplication/binlog_replica_applier.go: a statement of the primary.
use Prim.Native.String.{String}
use text.Mathlib.Text.{◌==◌, starts_with}
use myduckserver.Base.{ℕ, Bool, true, false, ◌&&◌, if◌then◌else◌, Option, none, some, [], done}
use myduckserver.Base.Actions.{Nothing, ◌>>◌, pure, fail, modify}
use myduckserver.Delta.{
  FlushReason, unknown as unknown_reason, ddl_stmt as ddl_stmt_reason, dml_stmt as dml_stmt_reason,
}
use myduckserver.Delta.Flush.{Engine}
use myduckserver.Applier.{
  Positions, BinlogQuery, prepare_failed, Applier, Apply, set_applier, set_database, in_database,
}
use myduckserver.Applier.Statements.{
  Node, start_transaction, commit, insert_into, update, delete_from, load_data,
  cause_implicit_commit_before, cause_implicit_commit_after, cause_schema_change,
}
use myduckserver.Applier.Server.{Server}
use myduckserver.Applier.Commit.{
  implicit_commit_before_stmt, implicit_commit_after_stmt, may_extend_batch_txn, append_pending,
  execute, flush_delta_buffer, commit_ongoing_txn, extend_or_commit_batch_txn,
}

-- implicitCommit, flushChangelog and flushReason
pub record Preparation : Type 0 where
  pub implicit_commit : Bool
  pub flush_changelog : Bool
  pub flush_reason : FlushReason

abbrev prepared : Bool → Bool → FlushReason → Preparation
prepared c f reason = record { implicit_commit = c; flush_changelog = f; flush_reason = reason }

-- The default case of the switch on the node.
unfoldable pub default_preparation : Node → Preparation
default_preparation n =
    let reason = if cause_schema_change n then ddl_stmt_reason else unknown_reason in
    if cause_implicit_commit_before n
    then prepared true true reason
    else prepared false false reason

-- The switch on the node, behind the cases that return.
unfoldable pub preparation : {B P : Type 0} → ℕ → Node → Applier B P → Preparation
unfolding default_preparation
preparation now start_transaction a = prepared true true (may_extend_batch_txn now a).1
preparation now insert_into a = prepared false true dml_stmt_reason
preparation now update a = prepared false true dml_stmt_reason
preparation now delete_from a = prepared false true dml_stmt_reason
preparation now load_data a = prepared false true dml_stmt_reason
preparation now n a = default_preparation n

-- The statements on which the default case looks.
abbrev is_default : Node → Bool
is_default start_transaction = false
is_default commit = false
is_default insert_into = false
is_default update = false
is_default delete_from = false
is_default load_data = false
is_default _ = true

abbrev pub is_start : Node → Bool
is_start start_transaction = true
is_start _ = false

abbrev pub is_commit : Node → Bool
is_commit commit = true
is_commit _ = false

-- The tables that are remembered, behind a statement that changes the schema.
unfoldable pub forget_tables : {B P : Type 0} → Node → Applier B P → Applier B P
forget_tables n a =
    if is_default n && cause_schema_change n then record a { tables_by_name = [] } else a

-- The flags behind a statement that was executed.
unfoldable pub statement_begun : {B P : Type 0} → Node → Applier B P → Applier B P
statement_begun n a = record a {
  dirty_txn = true;
  dirty_stream = true;
  ongoing_batch_txn = is_start n;
}

-- A BEGIN in a batch that goes on: the transaction before it is processed.
unfoldable pub extend_batch : {B P : Type 0} → Positions P → Applier B P → Applier B P
extend_batch p a = record (append_pending p a.previous_gtid a) { dirty_stream = true }

module _ {D T P V B R : Type 0} (v : Server D T P V) (p : Positions P) (e : Engine D B R)
    (no_index : Bool) where
  abbrev pub flush_if : Bool → ℕ → FlushReason → Apply D B P Nothing
  flush_if b now reason = if b then flush_delta_buffer v p e no_index now reason else pure tt

  abbrev pub commit_before : Bool → ℕ → FlushReason → Apply D B P Nothing
  commit_before b now reason r =
      if b && r.applier.dirty_txn
      then commit_ongoing_txn v p e no_index now implicit_commit_before_stmt reason r
      else (r, done tt)

  abbrev pub commit_after : Bool → ℕ → FlushReason → Apply D B P Nothing
  commit_after b now reason =
      if b then commit_ongoing_txn v p e no_index now implicit_commit_after_stmt reason else pure tt

  -- The part behind the switch.
  unfoldable pub execute_prepared : ℕ → Node → String → Preparation → Apply D B P Nothing
  execute_prepared now n sql q =
      flush_if q.flush_changelog now q.flush_reason
      >> (commit_before q.implicit_commit now q.flush_reason
          >> (execute v sql
              >> (modify (set_applier (statement_begun n))
                  >> commit_after (cause_implicit_commit_after n) now q.flush_reason)))

  unfoldable pub execute_node : ℕ → String → Node → Apply D B P Nothing
  execute_node now sql n r =
      if is_start n && (may_extend_batch_txn now r.applier).0
      then modify (set_applier (extend_batch p)) r
      else if is_commit n
      then extend_or_commit_batch_txn v p e no_index now r
      else execute_prepared now n sql (preparation now n r.applier)
          (set_applier (forget_tables n) r)

  abbrev pub with_node : ℕ → String → Option Node → Apply D B P Nothing
  with_node now sql none = fail prepare_failed
  with_node now sql (some n) = execute_node now sql n

  unfoldable pub prepare_and_execute : ℕ → String → Apply D B P Nothing
  prepare_and_execute now sql r =
      with_node now sql (v.prepare_query sql r.database).1 (in_database (v.prepare_query sql) r).0

  -- executeQueryWithEngine
  unfoldable pub execute_query_with_engine : ℕ → BinlogQuery → Apply D B P Nothing
  execute_query_with_engine now q =
      if (q.database == "mysql") && starts_with q.sql "TRUNCATE TABLE time_zone"
      then commit_ongoing_txn v p e no_index now implicit_commit_after_stmt dml_stmt_reason
      else modify (set_database (v.set_current_database q.database))
        >> prepare_and_execute now q.sql
