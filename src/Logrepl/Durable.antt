-- ===== src/Logrepl/Durable.antt =====
-- The position that the replicator holds for written is the one that the database has stored.
pub mod Rows
pub mod Messages
use Prim.Native.String.{String}
use myduckserver.Base.{
  ℕ, Bool, true, false, if◌then◌else◌, Option, none, some, List, [], ◌∷◌, Outcome, done, failed,
  panicked, ◌≡◌, refl, sym, ◌∙◌, arith,
}
use myduckserver.Base.Actions.{
  Nothing, Keeps, >>=-Keeps, >>-Keeps, pure-Keeps, fail-Keeps, read-Keeps, modify-Keeps, if-Keeps,
  option-Keeps, attempt-Keeps, deferred-Keeps, ignoring-Keeps, attempt, modify, pure, ◌>>◌,
}
use myduckserver.Delta.{FlushReason, RowEventType, ddl_stmt, dml_stmt}
use myduckserver.Delta.Statements.{TableIdentifier}
use myduckserver.Delta.Flush.{Engine, Appender}
use myduckserver.Delta.Flush.Controller.{Tables, get_delta_appender, flush}
use myduckserver.Delta.Flush.Observed.{flush_same}
use myduckserver.Logrepl.{
  Relation, OldTuple, key_tuple, old_tuple, no_tuple, Message, relation_message, begin_message,
  commit_message, insert_message, update_message, delete_message, truncate_message, stream_start,
  stream_stop, other_message, LogError, State, Replica, Step, find_id, Tuple, unknown_relation,
  unsupported_type, missing_old_tuple, parse_failed, set_state,
}
use myduckserver.Logrepl.Session.{Session}
use myduckserver.Logrepl.Rows.{
  Writer, append_in, truncate, truncate_all, append_row, append_tuple, count_appended,
  with_appender, table_of, schema_of,
}
use myduckserver.Logrepl.Commit.{
  committed, flush_delta_buffer, write_lsn, commit_txn, commit_flushed, commit_ongoing_txn,
  commit_ongoing_txn_if_clean, rollback_txn,
}
use myduckserver.Logrepl.Messages.{
  Types, unless_stale, create_table, set_types, process_relation, commit_unless_extended, open_txn,
  process_begin, process_commit, append_old, append_deleted, process, process_message, changed,
  receive, schema_of_columns,
}

-- What a session and an engine do to the stored position: `stored` is the committed one, and `pending` the
-- one that the open transaction has written. Only a commit that succeeds stores what is pending.
pub record StoresPositions {D T B R : Type 0} (db : Session D T) (e : Engine D B R)
    (stored pending : D → ℕ) : Type 0 where
  pub get_catalog_conn : (d : D) → stored (db.get_catalog_conn d).0 ≡ stored d
  pub get_catalog_txn : (d : D) → stored (db.get_catalog_txn d).0 ≡ stored d
  pub close_txn : (d : D) → stored (db.close_txn d) ≡ stored d
  pub rollback : (t : T) (d : D) → stored (db.rollback t d).0 ≡ stored d
  pub exec_catalog : (sql : String) (d : D) → stored (db.exec_catalog sql d).0 ≡ stored d
  pub exec_in_txn : (sql : String) (d : D) → stored (db.exec_in_txn sql d).0 ≡ stored d
  pub update_stored : (l : ℕ) (d : D) → stored (db.update_subscription_lsn l d).0 ≡ stored d
  pub update_pending :
      (l : ℕ) (d : D)
      → (db.update_subscription_lsn l d).1 ≡ true
      → pending (db.update_subscription_lsn l d).0 ≡ l
  pub commit :
      (t : T) (d : D)
      → stored (db.commit t d).0 ≡ (if (db.commit t d).1 then pending d else stored d)
  pub exec : (sql : String) (d : D) → stored (e.exec sql d).0 ≡ stored d
  pub register : (v : String) (r : R) (d : D) → stored (e.register v r d).0 ≡ stored d
  pub release : (v : String) (d : D) → stored (e.release v d) ≡ stored d

abbrev pub IsDurable : {D B : Type 0} → (D → ℕ) → Replica D B → Type 0
IsDurable stored r = r.state.last_written_lsn ≡ stored r.database

module _ {D T B R : Type 0} (db : Session D T) (e : Engine D B R) (stored pending : D → ℕ)
    (laws : StoresPositions db e stored pending) where
  flush-stored :
      (no_index tx : Bool) (reason : FlushReason) (r : Replica D B)
      → stored (flush e no_index tx reason r.state.deltas r.database).database ≡ stored r.database
  flush-stored no_index tx reason r =
      flush_same e stored laws.exec laws.register laws.release no_index tx reason r.state.deltas
        r.database

  pub flush_delta_buffer-IsDurable :
      (no_index tx : Bool) (reason : FlushReason)
      → Keeps (IsDurable stored) (flush_delta_buffer db e no_index tx reason)
  unfolding flush_delta_buffer
  flush_delta_buffer-IsDurable no_index tx reason = record {
    keeps = λ r p. ground (arith, flush-stored no_index tx reason r);
  }

  -- The position is written, and committed: the two together keep the property.
  write_and_commit-IsDurable :
      (no_index : Bool) (now : ℕ) (tx : T)
      → Keeps (IsDurable stored) (write_lsn db e no_index >> commit_txn db e no_index now tx)
  unfolding write_lsn commit_txn attempt modify ◌>>◌ committed
  write_and_commit-IsDurable no_index now tx = record {
    keeps = λ r p.
        (let l = r.state.last_commit_lsn in
          let u = db.update_subscription_lsn l r.database in
          ground (
            arith,
            laws.update_stored l r.database,
            laws.update_pending l r.database,
            laws.commit tx u.0,
          ));
  }

  commit_flushed-IsDurable :
      (no_index : Bool) (now : ℕ) (reason : FlushReason) (tx : T)
      → Keeps (IsDurable stored) (commit_flushed db e no_index now reason tx)
  unfolding commit_flushed
  commit_flushed-IsDurable no_index now reason tx =
      deferred-Keeps _ (λ r p. p ∙ sym (laws.close_txn _) ∙ sym (laws.rollback tx _))
        (>>-Keeps (flush_delta_buffer-IsDurable no_index true reason)
          (write_and_commit-IsDurable no_index now tx))

  pub commit_ongoing_txn-IsDurable :
      (no_index : Bool) (now : ℕ) (reason : FlushReason)
      → Keeps (IsDurable stored) (commit_ongoing_txn db e no_index now reason)
  unfolding commit_ongoing_txn
  commit_ongoing_txn-IsDurable no_index now reason =
      >>-Keeps (attempt-Keeps _ _ (λ r p. p ∙ sym (laws.get_catalog_conn r.database))) (
        >>=-Keeps (read-Keeps _)
          (λ o. option-Keeps o (pure-Keeps tt) (commit_flushed-IsDurable no_index now reason)))

  pub commit_ongoing_txn_if_clean-IsDurable :
      (no_index : Bool) (now : ℕ) (reason : FlushReason)
      → Keeps (IsDurable stored) (commit_ongoing_txn_if_clean db e no_index now reason)
  unfolding commit_ongoing_txn_if_clean
  commit_ongoing_txn_if_clean-IsDurable no_index now reason = record {
    keeps = λ r p. ground (arith, (commit_ongoing_txn-IsDurable no_index now reason).keeps r p);
  }

  pub rollback_txn-IsDurable : Keeps (IsDurable stored) (rollback_txn {B = B} db)
  unfolding rollback_txn
  rollback_txn-IsDurable =
      deferred-Keeps _ (λ r p. p ∙ sym (laws.close_txn r.database))
        (>>=-Keeps (read-Keeps _) (λ o.
          option-Keeps o (pure-Keeps tt)
            (λ t. attempt-Keeps _ _ (λ r p. p ∙ sym (laws.rollback t r.database)))))
