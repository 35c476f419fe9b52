-- ===== src/Applier/Commit.antt =====
-- The commits of binlogreplication/binlog_replica_applier.go: mayExtendBatchTxn, flushDeltaBuffer,
-- commitOngoingTxn, extendOrCommitBatchTxn and execute, with Save of binlog_position_store.go.
use Prim.Native.String.{String}
use myduckserver.Base.{
  ℕ, ◌-◌, ◌*◌, ◌^◌, leb, Bool, true, false, not, ◌||◌, if◌then◌else◌, Option, none, some, done,
  failed,
}
use myduckserver.Base.Actions.{Nothing, ◌>>◌, pure, fail, modify, attempt}
use myduckserver.Delta.{
  FlushReason, unknown as unknown_reason, time_tick as time_tick_reason,
  memory_limit as memory_limit_reason,
}
use myduckserver.Delta.Flush.{Engine, Flushed, FlushError}
use myduckserver.Delta.Flush.Controller.{flush}
use myduckserver.Applier.{
  Gtid, Positions, ApplyError, empty_position, save_failed, connection_failed, transaction_failed,
  query_failed, commit_failed, flush_failed, Applier, Applying, Apply, set_applier, set_status,
  set_database, in_database, set_sql_error, er_unknown_error,
}
use myduckserver.Applier.Server.{
  Server, Executed, nothing_to_commit, execution_failed, rows_read, reading_failed, Committed,
  not_committed,
}

pub data CommitKind : Type 0 where
  normal_commit implicit_commit_before_stmt implicit_commit_after_stmt : CommitKind

abbrev pub is_before : CommitKind → Bool
is_before implicit_commit_before_stmt = true
is_before _ = false

abbrev pub is_after : CommitKind → Bool
is_after implicit_commit_after_stmt = true
is_after _ = false

-- mayExtendBatchTxn
unfoldable pub may_extend_batch_txn : {B P : Type 0} → ℕ → Applier B P → Bool × FlushReason
may_extend_batch_txn now a =
    if not a.ongoing_batch_txn
    then (false, unknown_reason)
    else if leb 200 (now - a.last_commit_time)
    then (false, time_tick_reason)
    else if leb (128 * 2 ^ 20) a.delta_buf_size
    then (false, memory_limit_reason)
    else (true, unknown_reason)

-- A GTID at the end of the pending position.
abbrev pub append_pending : {B P : Type 0} → Positions P → Option Gtid → Applier B P → Applier B P
append_pending p gtid a = record a { pending_position = p.append_gtid a.pending_position gtid }

-- The state behind a commit.
unfoldable pub position_reached : {B P : Type 0} → ℕ → Applier B P → Applier B P
position_reached now a = record a {
  ongoing_batch_txn = false;
  dirty_txn = false;
  dirty_stream = false;
  in_txn_stmt_id = 0;
  last_commit_time = now;
  current_position = a.pending_position;
}

module _ {D T P V : Type 0} (v : Server D T P V) {B : Type 0} where
  -- setSqlError with an error's text, as recordReplicationError calls it
  unfoldable pub record_error : ℕ → ApplyError → Apply D B P Nothing
  record_error now e = modify (set_status (set_sql_error now er_unknown_error (v.error_text e)))

  abbrev pub executed : Executed → Apply D B P Nothing
  executed nothing_to_commit = pure tt
  executed execution_failed = fail query_failed
  executed rows_read = pure tt
  executed reading_failed = fail query_failed

  unfoldable pub execute : String → Apply D B P Nothing
  execute sql r = executed (v.query sql r.database).1 (in_database (v.query sql) r).0

  abbrev pub closed : Committed → Apply D B P Nothing
  closed not_committed = fail commit_failed
  closed _ = modify (set_database v.close_txn)

  abbrev pub commit_in : Option T → Apply D B P Nothing
  commit_in none r = (r, done tt)
  commit_in (some tx) r = closed (v.commit tx r.database).1 (in_database (v.commit tx) r).0

  -- The commit of the session's transaction, where there is one.
  unfoldable pub commit_txn_in_progress : Apply D B P Nothing
  commit_txn_in_progress r = commit_in (v.try_get_txn r.database) r

module _ {D T P V B R : Type 0} (v : Server D T P V) (p : Positions P) (e : Engine D B R)
    (no_index : Bool) where
  -- Behind a flush that failed: its transaction is rolled back and closed.
  abbrev pub flushed :
      ℕ → T → Applying D B P → Flushed D B → Option FlushError → Apply D B P Nothing
  flushed now tx r f none r' = (r', done tt)
  flushed now tx r f (some err) r' =
      (modify (set_status (set_sql_error now er_unknown_error (v.error_text (flush_failed err))))
          >> (modify (set_database (λ d. v.close_txn (v.rollback tx d)))
              >> fail (flush_failed err)))
        r'

  abbrev pub flush_in : ℕ → T → FlushReason → Apply D B P Nothing
  flush_in now tx reason r =
      let f = flush e no_index true reason r.applier.deltas r.database in
      flushed now tx r f f.error (record r {
        applier = record r.applier { deltas = f.tables; delta_buf_size = 0 };
        database = f.database;
      })

  abbrev pub with_txn : ℕ → FlushReason → Option T → Apply D B P Nothing
  with_txn now reason none = fail transaction_failed
  with_txn now reason (some tx) = flush_in now tx reason

  -- GetCatalogTxn, and the flush in it.
  unfoldable pub flush_in_catalog_txn : ℕ → FlushReason → Apply D B P Nothing
  flush_in_catalog_txn now reason r =
      with_txn now reason (v.get_catalog_txn r.database).1 (in_database v.get_catalog_txn r).0

  -- flushDeltaBuffer
  unfoldable pub flush_delta_buffer : ℕ → FlushReason → Apply D B P Nothing
  flush_delta_buffer now reason =
      attempt connection_failed (in_database v.get_catalog_conn) >> flush_in_catalog_txn now reason

  abbrev pub saved : D × Bool → Apply D B P Nothing
  saved (d, true) r = (record r { database = d }, done tt)
  saved (d, false) r = (record r { database = d }, failed save_failed)

  abbrev pub upsert_pending : Apply D B P Nothing
  upsert_pending r = saved (v.upsert_position r.applier.pending_position r.database) r

  -- Save of the position store, with the pending position
  unfoldable pub save_position : Apply D B P Nothing
  save_position r =
      if p.is_zero r.applier.pending_position then (r, failed empty_position) else upsert_pending r

  -- The COMMIT of the session.
  unfoldable pub commit_session : CommitKind → Apply D B P Nothing
  commit_session kind r =
      if not (is_after kind) || not (v.get_autocommit r.database)
      then execute v "COMMIT" r
      else (r, done tt)

  -- The GTID that is processed, unless a statement commits before itself.
  unfoldable pub note_gtid : CommitKind → Applier B P → Applier B P
  note_gtid kind a = if is_before kind then a else append_pending p a.current_gtid a

  -- The states in memory behind a commit, and @@GLOBAL.gtid_executed.
  unfoldable pub settle : ℕ → Apply D B P Nothing
  settle now =
      modify (set_applier (position_reached now))
      >> modify (λ r. set_database (v.assign_gtid_executed r.applier.current_position) r)

  -- commitOngoingTxn
  unfoldable pub commit_ongoing_txn : ℕ → CommitKind → FlushReason → Apply D B P Nothing
  commit_ongoing_txn now kind reason =
      flush_delta_buffer now reason
      >> (modify (set_applier (note_gtid kind))
          >> (save_position >> (commit_session kind >> (commit_txn_in_progress v >> settle now))))

  -- extendOrCommitBatchTxn
  unfoldable pub extend_or_commit_batch_txn : ℕ → Apply D B P Nothing
  extend_or_commit_batch_txn now r =
      if (may_extend_batch_txn now r.applier).0
      then modify
          (set_applier (λ a. record (append_pending p a.current_gtid a) { dirty_stream = false })) r
      else commit_ongoing_txn now normal_commit (may_extend_batch_txn now r.applier).1 r
