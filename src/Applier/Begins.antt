-- ===== src/Applier/Begins.antt =====
-- Where a transaction of the primary begins: what its BEGIN does to the position, and what a tick or a stop does
-- between its GTID and its BEGIN.
use Prim.Native.String.{String}
use myduckserver.Base.{ℕ, Bool, ◌&&◌, ◌≡◌, refl, ◌⊎◌, inl, inr, Bool-cases}
use myduckserver.Base.Actions.{
  Keeps, >>-Keeps, pure-Keeps, modify-Keeps, if-Keeps, choice-Keeps, here-Keeps, modify,
}
use myduckserver.Delta.{FlushReason}
use myduckserver.Delta.Flush.{Engine}
use myduckserver.Applier.{Positions, Applying}
use myduckserver.Applier.Server.{Server}
use myduckserver.Applier.Statements.{start_transaction, cause_implicit_commit_after}
use myduckserver.Applier.Commit.{
  implicit_commit_before_stmt, note_gtid, settle, position_reached, commit_ongoing_txn,
  may_extend_batch_txn,
}
use myduckserver.Applier.Query.{
  Preparation, preparation, statement_begun, extend_batch, forget_tables, commit_before,
  execute_prepared, execute_node,
}
use myduckserver.Applier.Kept.{Core, core_serving}
use myduckserver.Applier.Kept.Commit.{
  execute-Holds, flush_delta_buffer-Holds, save_position-Holds, commit_session-Holds,
  commit_txn_in_progress-Holds,
}

module _ {D T P V B R : Type 0} (v : Server D T P V) (p : Positions P) (e : Engine D B R)
    (no_index : Bool) (q : P) where
  -- The pending position stays.
  abbrev Pends : Applying D B P → Type 0
  Pends r = r.applier.pending_position ≡ q

  abbrev IsPending : Core P → Type 0
  IsPending c = c.pending ≡ q

  implicit_commit-Pends :
      (now : ℕ) (reason : FlushReason)
      → Keeps Pends (commit_ongoing_txn v p e no_index now implicit_commit_before_stmt reason)
  unfolding commit_ongoing_txn note_gtid settle position_reached
  implicit_commit-Pends now reason =
      let s = core_serving v e IsPending in
      >>-Keeps (flush_delta_buffer-Holds s p no_index now reason) (
        >>-Keeps (modify-Keeps _ (λ r h. h)) (
          >>-Keeps (save_position-Holds s p no_index) (
            >>-Keeps (commit_session-Holds s p no_index implicit_commit_before_stmt) (
              >>-Keeps (commit_txn_in_progress-Holds s)
                (>>-Keeps (modify-Keeps _ (λ r h. h)) (modify-Keeps _ (λ r h. h)))))))

  commit_before-Pends :
      (b : Bool) (now : ℕ) (reason : FlushReason)
      → Keeps Pends (commit_before v p e no_index b now reason)
  commit_before-Pends b now reason =
      choice-Keeps (λ r. b && r.applier.dirty_txn) (implicit_commit-Pends now reason) (here-Keeps _)

  execute_begin-Pends :
      (now : ℕ) (sql : String) (x : Preparation)
      → Keeps Pends (execute_prepared v p e no_index now start_transaction sql x)
  unfolding execute_prepared statement_begun cause_implicit_commit_after
  execute_begin-Pends now sql x =
      let s = core_serving v e IsPending in
      >>-Keeps
        (if-Keeps x.flush_changelog (flush_delta_buffer-Holds s p no_index now x.flush_reason)
          (pure-Keeps tt))
        (>>-Keeps (commit_before-Pends x.implicit_commit now x.flush_reason)
          (>>-Keeps (execute-Holds s sql) (>>-Keeps (modify-Keeps _ (λ r h. h)) (pure-Keeps tt))))

module _ {D T P V B R : Type 0} (v : Server D T P V) (p : Positions P) (e : Engine D B R)
    (no_index : Bool) where
  -- However a BEGIN ends, the pending position is as it was, or has at its end the GTID before: the one that
  -- begins is not added.
  pub execute_node-pending :
      (now : ℕ) (sql : String) (r : Applying D B P)
      → let a = r.applier in
        let b = (execute_node v p e no_index now sql start_transaction r).0.applier in
        (b.pending_position ≡ a.pending_position)
        ⊎ (b.pending_position ≡ p.append_gtid a.pending_position a.previous_gtid)
  unfolding execute_node modify extend_batch forget_tables
  execute_node-pending now sql r = elim (Bool-cases (may_extend_batch_txn now r.applier).0) [
    | inl extends ↦ rw extends (inr refl)
    | inr ends ↦ rw ends (
        inl (
          (execute_begin-Pends v p e no_index r.applier.pending_position now sql
              (preparation now start_transaction r.applier)).keeps
            r refl))
  ]
