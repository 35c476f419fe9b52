-- ===== src/Applier/Kept/Commit.antt =====
-- What flushes, commits and statements keep.
use Prim.Native.String.{String}
use myduckserver.Base.{ℕ, Bool, true, false, not, ◌||◌, Option, none, some}
use myduckserver.Base.Actions.{
  Keeps, >>-Keeps, pure-Keeps, fail-Keeps, modify-Keeps, attempt-Keeps, choice-Keeps, here-Keeps,
}
use myduckserver.Delta.{FlushReason}
use myduckserver.Delta.Flush.{Engine, FlushError, Flushed}
use myduckserver.Delta.Flush.Controller.{flush}
use myduckserver.Delta.Flush.Observed.{flush_same}
use myduckserver.Applier.{Gtid, Positions, Applying, set_applier}
use myduckserver.Applier.Server.{
  Server, Executed, nothing_to_commit, execution_failed, rows_read, reading_failed, Committed,
  committed_ok, tx_done, not_committed,
}
use myduckserver.Applier.Commit.{
  CommitKind, normal_commit, implicit_commit_before_stmt, implicit_commit_after_stmt, execute,
  executed, closed, commit_in, commit_txn_in_progress, flushed, flush_in, with_txn,
  flush_in_catalog_txn, flush_delta_buffer, saved, save_position, is_after, commit_session,
  note_gtid, settle, commit_ongoing_txn, extend_or_commit_batch_txn, position_reached,
  may_extend_batch_txn,
}
use myduckserver.Applier.Kept.{Core, core, Serving, Changes, Holds}

module _ {D T P V B R O : Type 0} {v : Server D T P V} {e : Engine D B R} {o : D → O}
    {J : Core P → O → Type 0} (laws : Serving v e o J) where
  executed-Holds : (x : Executed) → Keeps (Holds o J) (executed v {B = B} x)
  executed-Holds nothing_to_commit = pure-Keeps tt
  executed-Holds execution_failed = fail-Keeps _
  executed-Holds rows_read = pure-Keeps tt
  executed-Holds reading_failed = fail-Keeps _

  pub execute-Holds : (sql : String) → Keeps (Holds o J) (execute v {B = B} sql)
  unfolding execute
  execute-Holds sql = record {
    keeps = λ r h. (executed-Holds _).keeps _ (laws.query _ sql r.database h);
  }

  closed-Holds : (x : Committed) → Keeps (Holds o J) (closed v {B = B} x)
  closed-Holds committed_ok = modify-Keeps _ (λ r h. laws.close_txn _ r.database h)
  closed-Holds tx_done = modify-Keeps _ (λ r h. laws.close_txn _ r.database h)
  closed-Holds not_committed = fail-Keeps _

  commit_in-Holds : (t : Option T) → Keeps (Holds o J) (commit_in v {B = B} t)
  commit_in-Holds none = record { keeps = λ r h. h }
  commit_in-Holds (some tx) = record {
    keeps =
        λ r h. (closed-Holds (v.commit tx r.database).1).keeps _ (laws.commit _ tx r.database h);
  }

  pub commit_txn_in_progress-Holds : Keeps (Holds o J) (commit_txn_in_progress v {B = B})
  unfolding commit_txn_in_progress
  commit_txn_in_progress-Holds = record {
    keeps = λ r h. (commit_in-Holds (v.try_get_txn r.database)).keeps r h;
  }

  module _ (p : Positions P) (no_index : Bool) where
    flushed-Holds :
        (now : ℕ) (tx : T) (r : Applying D B P) (f : Flushed D B) (err : Option FlushError)
        → Keeps (Holds o J) (flushed v p e no_index now tx r f err)
    flushed-Holds now tx r f none = record { keeps = λ s h. h }
    flushed-Holds now tx r f (some err) = >>-Keeps (modify-Keeps _ (λ r h. h)) (
        >>-Keeps (modify-Keeps _ (λ r h. laws.close_txn _ _ (laws.rollback _ tx r.database h)))
          (fail-Keeps _))

    flush_in-Holds :
        (now : ℕ) (tx : T) (reason : FlushReason)
        → Keeps (Holds o J) (flush_in v p e no_index now tx reason)
    flush_in-Holds now tx reason = record {
      keeps = λ r h.
          (let f = flush e no_index true reason r.applier.deltas r.database in
            (flushed-Holds now tx r f f.error).keeps _ (
              rw
                (flush_same e o laws.exec laws.register laws.release no_index true reason
                  r.applier.deltas r.database)
                h));
    }

    with_txn-Holds :
        (now : ℕ) (reason : FlushReason) (t : Option T)
        → Keeps (Holds o J) (with_txn v p e no_index now reason t)
    with_txn-Holds now reason none = fail-Keeps _
    with_txn-Holds now reason (some tx) = flush_in-Holds now tx reason

    pub flush_delta_buffer-Holds :
        (now : ℕ) (reason : FlushReason)
        → Keeps (Holds o J) (flush_delta_buffer v p e no_index now reason)
    unfolding flush_delta_buffer flush_in_catalog_txn
    flush_delta_buffer-Holds now reason =
        >>-Keeps (attempt-Keeps _ _ (λ r h. laws.get_catalog_conn _ r.database h)) (record {
          keeps =
              λ r h. (with_txn-Holds now reason _).keeps _ (laws.get_catalog_txn _ r.database h);
        })

    saved-Holds :
        (q : D × Bool) (r : Applying D B P)
        → J (core r.applier) (o q.0)
        → Holds o J (saved v p e no_index q r).0
    saved-Holds (d, true) r h = h
    saved-Holds (d, false) r h = h

    pub save_position-Holds : Keeps (Holds o J) (save_position v p e no_index)
    unfolding save_position
    save_position-Holds =
        choice-Keeps (λ r. p.is_zero r.applier.pending_position) (here-Keeps _)
          (record {
            keeps = λ r h.
                saved-Holds (v.upsert_position r.applier.pending_position r.database) r
                  (laws.upsert_position _ r.database h);
          })

    pub commit_session-Holds :
        (kind : CommitKind) → Keeps (Holds o J) (commit_session v p e no_index kind)
    unfolding commit_session
    commit_session-Holds kind =
        choice-Keeps (λ r. not (is_after kind) || not (v.get_autocommit r.database))
          (execute-Holds "COMMIT") (here-Keeps _)

module _ {D T P V B R O : Type 0} {v : Server D T P V} {p : Positions P} {e : Engine D B R}
    {o : D → O} {J : Core P → O → Type 0} {G : Gtid → Type 0} (laws : Changes v p e o J G)
    (no_index : Bool) where
  note_gtid-Holds :
      (kind : CommitKind) (r : Applying D B P)
      → Holds o J r
      → Holds o J (set_applier (note_gtid v p e no_index kind) r)
  unfolding note_gtid
  note_gtid-Holds normal_commit r h = laws.noted _ _ h
  note_gtid-Holds implicit_commit_before_stmt r h = h
  note_gtid-Holds implicit_commit_after_stmt r h = laws.noted _ _ h

  settle-Holds : (now : ℕ) → Keeps (Holds o J) (settle v p e no_index now)
  unfolding settle position_reached
  settle-Holds now =
      >>-Keeps (modify-Keeps _ (λ r h. laws.settled _ _ h))
        (modify-Keeps _ (λ r h. laws.serving.assign_gtid_executed _ r.database h))

  pub commit_ongoing_txn-Holds :
      (now : ℕ) (kind : CommitKind) (reason : FlushReason)
      → Keeps (Holds o J) (commit_ongoing_txn v p e no_index now kind reason)
  unfolding commit_ongoing_txn
  commit_ongoing_txn-Holds now kind reason =
      >>-Keeps (flush_delta_buffer-Holds laws.serving p no_index now reason) (
        >>-Keeps (modify-Keeps _ (note_gtid-Holds kind)) (
          >>-Keeps (save_position-Holds laws.serving p no_index) (
            >>-Keeps (commit_session-Holds laws.serving p no_index kind)
              (>>-Keeps (commit_txn_in_progress-Holds laws.serving) (settle-Holds now)))))

  pub extend_or_commit_batch_txn-Holds :
      (now : ℕ) → Keeps (Holds o J) (extend_or_commit_batch_txn v p e no_index now)
  unfolding extend_or_commit_batch_txn
  extend_or_commit_batch_txn-Holds now =
      choice-Keeps (λ r. (may_extend_batch_txn now r.applier).0)
        (modify-Keeps _ (λ s k. laws.cleaned _ _ (laws.noted _ _ k)))
        (record {
          keeps = λ r h.
              (commit_ongoing_txn-Holds now normal_commit
                  (may_extend_batch_txn now r.applier).1).keeps
                r h;
        })
