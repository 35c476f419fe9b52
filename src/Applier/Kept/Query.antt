-- ===== src/Applier/Kept/Query.antt =====
-- What the statements of the primary keep.
use Prim.Native.String.{String}
use myduckserver.Base.{ℕ, Bool, true, ◌&&◌, Option, none, some, ◌≡◌, arith}
use myduckserver.Base.Actions.{
  Keeps, >>-Keeps, pure-Keeps, fail-Keeps, modify-Keeps, if-Keeps, choice-Keeps, here-Keeps,
  guard-Keeps, modify,
}
use myduckserver.Delta.{FlushReason, dml_stmt as dml_stmt_reason}
use myduckserver.Delta.Flush.{Engine}
use myduckserver.Applier.{Gtid, Positions, BinlogQuery, Applier, set_applier}
use myduckserver.Applier.Statements.{Node, cause_implicit_commit_after}
use myduckserver.Applier.Server.{Server}
use myduckserver.Applier.Commit.{
  implicit_commit_before_stmt, implicit_commit_after_stmt, may_extend_batch_txn,
}
use myduckserver.Applier.Query.{
  Preparation, preparation, is_start, is_commit, forget_tables, statement_begun, extend_batch,
  flush_if, commit_before, commit_after, execute_prepared, execute_node, with_node,
  prepare_and_execute, execute_query_with_engine,
}
use myduckserver.Applier.Kept.{Core, core, Changes, Holds}
use myduckserver.Applier.Kept.Commit.{
  execute-Holds, flush_delta_buffer-Holds, commit_ongoing_txn-Holds,
  extend_or_commit_batch_txn-Holds,
}

-- A batch that goes on is one.
pub extendable_ongoing :
    {B P : Type 0} (now : ℕ) (a : Applier B P)
    → (may_extend_batch_txn now a).0 ≡ true
    → a.ongoing_batch_txn ≡ true
unfolding may_extend_batch_txn
extendable_ongoing now a h = ground arith

right_of_and : (b c : Bool) → (b && c) ≡ true → c ≡ true
right_of_and b c h = ground arith

forget_tables-core : {B P : Type 0} (n : Node) (a : Applier B P) → core (forget_tables n a) ≡ core a
unfolding forget_tables
forget_tables-core n a = ground arith

module _ {D T P V B R O : Type 0} {v : Server D T P V} {p : Positions P} {e : Engine D B R}
    {o : D → O} {J : Core P → O → Type 0} {G : Gtid → Type 0} (laws : Changes v p e o J G)
    (no_index : Bool) where
  flush_if-Holds :
      (b : Bool) (now : ℕ) (reason : FlushReason)
      → Keeps (Holds o J) (flush_if v p e no_index b now reason)
  flush_if-Holds b now reason =
      if-Keeps b (flush_delta_buffer-Holds laws.serving p no_index now reason) (pure-Keeps tt)

  commit_before-Holds :
      (b : Bool) (now : ℕ) (reason : FlushReason)
      → Keeps (Holds o J) (commit_before v p e no_index b now reason)
  commit_before-Holds b now reason =
      choice-Keeps (λ r. b && r.applier.dirty_txn)
        (commit_ongoing_txn-Holds laws no_index now implicit_commit_before_stmt reason)
        (here-Keeps _)

  commit_after-Holds :
      (b : Bool) (now : ℕ) (reason : FlushReason)
      → Keeps (Holds o J) (commit_after v p e no_index b now reason)
  commit_after-Holds b now reason =
      if-Keeps b (commit_ongoing_txn-Holds laws no_index now implicit_commit_after_stmt reason)
        (pure-Keeps tt)

  execute_prepared-Holds :
      (now : ℕ) (n : Node) (sql : String) (q : Preparation)
      → Keeps (Holds o J) (execute_prepared v p e no_index now n sql q)
  unfolding execute_prepared statement_begun
  execute_prepared-Holds now n sql q =
      >>-Keeps (flush_if-Holds q.flush_changelog now q.flush_reason) (
        >>-Keeps (commit_before-Holds q.implicit_commit now q.flush_reason) (
          >>-Keeps (execute-Holds laws.serving sql) (
            >>-Keeps (modify-Keeps _ (λ r h. laws.begun _ (is_start n) _ h))
              (commit_after-Holds (cause_implicit_commit_after n) now q.flush_reason))))

  execute_node-Holds :
      (now : ℕ) (sql : String) (n : Node)
      → Keeps (Holds o J) (execute_node v p e no_index now sql n)
  unfolding execute_node modify extend_batch
  execute_node-Holds now sql n =
      guard-Keeps (λ r. is_start n && (may_extend_batch_txn now r.applier).0)
        (modify (set_applier (extend_batch p)))
        (λ r t h.
          laws.extended _ _ (extendable_ongoing now r.applier (right_of_and (is_start n) _ t)) h)
        (choice-Keeps (λ r. is_commit n) (extend_or_commit_batch_txn-Holds laws no_index now)
          (record {
            keeps = λ r h.
                (execute_prepared-Holds now n sql (preparation now n r.applier)).keeps _
                  (rw (forget_tables-core n r.applier) h);
          }))

  with_node-Holds :
      (now : ℕ) (sql : String) (n : Option Node)
      → Keeps (Holds o J) (with_node v p e no_index now sql n)
  with_node-Holds now sql none = fail-Keeps _
  with_node-Holds now sql (some n) = execute_node-Holds now sql n

  prepare_and_execute-Holds :
      (now : ℕ) (sql : String) → Keeps (Holds o J) (prepare_and_execute v p e no_index now sql)
  unfolding prepare_and_execute
  prepare_and_execute-Holds now sql = record {
    keeps =
        λ r h. (with_node-Holds now sql _).keeps _ (laws.serving.prepare_query _ sql r.database h);
  }

  pub execute_query_with_engine-Holds :
      (now : ℕ) (q : BinlogQuery)
      → Keeps (Holds o J) (execute_query_with_engine v p e no_index now q)
  unfolding execute_query_with_engine
  execute_query_with_engine-Holds now q =
      if-Keeps _
        (commit_ongoing_txn-Holds laws no_index now implicit_commit_after_stmt dml_stmt_reason)
        (>>-Keeps
          (modify-Keeps _ (λ r h. laws.serving.set_current_database _ q.database r.database h))
          (prepare_and_execute-Holds now q.sql))
