-- ===== src/Logrepl/Commit.antt =====
-- The batching of transactions in pgserver/logrepl/replication.go: mayExtendBatchTxn, commitOngoingTxn,
-- commitOngoingTxnIfClean, flushDeltaBuffer and rollback. A time is a number of milliseconds.
use myduckserver.Base.{
  ℕ, ◌-◌, ◌*◌, ◌^◌, leb, ◌==◌, Bool, true, false, not, ◌&&◌, if◌then◌else◌, none, some, Outcome,
  done, failed,
}
use myduckserver.Base.Actions.{Nothing, ◌>>=◌, ◌>>◌, pure, read, modify, attempt, deferred}
use myduckserver.Delta.{
  FlushReason, unknown as unknown_reason, init as init_reason, time_tick as time_tick_reason,
  memory_limit as memory_limit_reason,
}
use myduckserver.Delta.Flush.{Engine, Flushed}
use myduckserver.Delta.Flush.Controller.{flush}
use myduckserver.Logrepl.{
  LogError, connection_failed, lsn_failed, commit_failed, flush_failed, transaction_failed, State,
  Replica, Step, set_state, on_database,
}
use myduckserver.Logrepl.Session.{Session}

-- mayExtendBatchTxn
unfoldable pub may_extend_batch_txn : {B : Type 0} → ℕ → State B → Bool × FlushReason
may_extend_batch_txn now s =
    if not s.ongoing_batch_txn
    then (false, unknown_reason)
    else if s.commit_count == 1
    then (false, init_reason)
    else if leb 200 (now - s.last_commit_time)
    then (false, time_tick_reason)
    else if leb (128 * 2 ^ 20) s.delta_buf_size
    then (false, memory_limit_reason)
    else (true, unknown_reason)

-- The state behind a commit.
unfoldable pub committed : {B : Type 0} → ℕ → State B → State B
committed now s = record s {
  ongoing_batch_txn = false;
  dirty_txn = false;
  dirty_stream = false;
  in_txn_stmt_id = 0;
  last_commit_time = now;
  last_written_lsn = s.last_commit_lsn;
}

module _ {D T B R : Type 0} (db : Session D T) (e : Engine D B R) (no_index : Bool) where
  abbrev flushed : Replica D B → Flushed D B → Replica D B × Outcome LogError Nothing
  flushed r f = (
    record {
      state = record r.state { deltas = f.tables; delta_buf_size = 0 };
      database = f.database;
    },
    elim f.error [ none ↦ done tt | some err ↦ failed (flush_failed err) ],
  )

  -- flushDeltaBuffer; `tx` is whether it is given a transaction.
  unfoldable pub flush_delta_buffer : Bool → FlushReason → Step D B Nothing
  flush_delta_buffer tx reason r = flushed r (flush e no_index tx reason r.state.deltas r.database)

  unfoldable pub write_lsn : Step D B Nothing
  write_lsn r =
      attempt lsn_failed (on_database (db.update_subscription_lsn r.state.last_commit_lsn)) r

  -- tx.Commit, and the state behind it
  unfoldable pub commit_txn : ℕ → T → Step D B Nothing
  commit_txn now tx =
      attempt commit_failed (on_database (db.commit tx)) >> modify (set_state (committed now))

  abbrev end_txn : T → Replica D B → Replica D B
  end_txn tx r = record r { database = (db.rollback tx (db.close_txn r.database)).0 }

  -- The part of commitOngoingTxn behind the test of the transaction, with its two deferred calls.
  unfoldable pub commit_flushed : ℕ → FlushReason → T → Step D B Nothing
  commit_flushed now reason tx =
      deferred (end_txn tx) (flush_delta_buffer true reason >> (write_lsn >> commit_txn now tx))

  -- commitOngoingTxn
  unfoldable pub commit_ongoing_txn : ℕ → FlushReason → Step D B Nothing
  commit_ongoing_txn now reason = do
    attempt connection_failed (on_database db.get_catalog_conn)
    tx ← read (λ r. db.try_get_txn r.database)
    elim tx [ none ↦ pure tt | some t ↦ commit_flushed now reason t ]

  unfoldable pub commit_ongoing_txn_if_clean : ℕ → FlushReason → Step D B Nothing
  commit_ongoing_txn_if_clean now reason r =
      if r.state.dirty_txn && not r.state.dirty_stream
      then commit_ongoing_txn now reason r
      else (r, done tt)

module _ {D T B : Type 0} (db : Session D T) where
  -- rollback, with its deferred CloseTxn; an error "no transaction is active" is none.
  unfoldable pub rollback_txn : Step D B Nothing
  rollback_txn =
      deferred (λ r. record r { database = db.close_txn r.database })
        (do
          tx ← read (λ r. db.try_get_txn r.database)
          elim tx [
            | none ↦ pure tt
            | some t ↦ attempt transaction_failed (on_database (db.rollback t))
          ])
