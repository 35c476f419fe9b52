-- ===== src/Logrepl/Progress.antt =====
-- What is committed and told when the flush interval has passed.
use myduckserver.Base.{
  ℕ, ◌+◌, ◌-◌, ◌<◌, if_true, if_false, ltb, lt→ltb, not, ◌&&◌, Bool, true, false, none, some, ◌∷◌,
  Outcome, done, failed, panicked, ◌≡◌, refl, ap, ◌∙◌, arith,
}
use myduckserver.Base.Actions.{Nothing, ◌>>=◌, ◌>>◌, read, modify, attempt, deferred}
use myduckserver.Delta.{FlushReason, time_tick as time_tick_reason}
use myduckserver.Delta.Flush.{Engine}
use myduckserver.Delta.Flush.Controller.{flush}
use myduckserver.Logrepl.{LogError, Replica}
use myduckserver.Logrepl.Session.{Session}
use myduckserver.Logrepl.Rows.{Writer}
use myduckserver.Logrepl.Messages.{Types}
use myduckserver.Logrepl.Commit.{
  committed, flush_delta_buffer, write_lsn, commit_txn, commit_flushed, commit_ongoing_txn,
  commit_ongoing_txn_if_clean,
}
use myduckserver.Logrepl.Loop.{Loop, tick, send_standby_status_update, after_tick, on_event, step}

-- The calls by which a transaction is committed succeed.
pub record Succeeds {D T : Type 0} (db : Session D T) : Type 0 where
  pub get_catalog_conn : (d : D) → (db.get_catalog_conn d).1 ≡ true
  pub update : (l : ℕ) (d : D) → (db.update_subscription_lsn l d).1 ≡ true
  pub commit : (t : T) (d : D) → (db.commit t d).1 ≡ true

-- The action succeeds and writes the position.
abbrev Writes : {D B : Type 0} → ℕ → Replica D B × Outcome LogError Nothing → Type 0
Writes l o = (o.1 ≡ done tt) × (o.0.state.last_written_lsn ≡ l)

module _ {D T B R : Type 0} (db : Session D T) (e : Engine D B R) (no_index : Bool) (now : ℕ)
    (ok : Succeeds db) where
  write_and_commit-Writes :
      (t : T) (r : Replica D B)
      → Writes r.state.last_commit_lsn
          ((write_lsn db e no_index >> commit_txn db e no_index now t) r)
  unfolding write_lsn commit_txn attempt modify ◌>>◌ committed
  write_and_commit-Writes t r =
      let d = (db.update_subscription_lsn r.state.last_commit_lsn r.database).0 in
      rw (ok.update r.state.last_commit_lsn r.database, ok.commit t d) (refl, refl)

  commit_flushed-Writes :
      (reason : FlushReason) (t : T) (r : Replica D B)
      → (flush e no_index true reason r.state.deltas r.database).error ≡ none
      → Writes r.state.last_commit_lsn (commit_flushed db e no_index now reason t r)
  unfolding commit_flushed deferred flush_delta_buffer ◌>>◌
  commit_flushed-Writes reason t r h =
      let f = flush e no_index true reason r.state.deltas r.database in
      let flushed_state = record r.state { deltas = f.tables; delta_buf_size = 0 } in
      rw h (write_and_commit-Writes t (record { state = flushed_state; database = f.database }))

  module _ (reason : FlushReason) (t : T) (r : Replica D B) where
    abbrev connected_database : D
    connected_database = (db.get_catalog_conn r.database).0

    commit_ongoing_txn-Writes :
        db.try_get_txn connected_database ≡ some t
        → (flush e no_index true reason r.state.deltas connected_database).error ≡ none
        → Writes r.state.last_commit_lsn (commit_ongoing_txn db e no_index now reason r)
    unfolding commit_ongoing_txn attempt read ◌>>◌ ◌>>=◌
    commit_ongoing_txn-Writes found h =
        rw (ok.get_catalog_conn r.database, found)
          (commit_flushed-Writes reason t (record r { database = connected_database }) h)

    commit_ongoing_txn_if_clean-Writes :
        r.state.dirty_txn ≡ true
        → r.state.dirty_stream ≡ false
        → db.try_get_txn connected_database ≡ some t
        → (flush e no_index true reason r.state.deltas connected_database).error ≡ none
        → Writes r.state.last_commit_lsn (commit_ongoing_txn_if_clean db e no_index now reason r)
    unfolding commit_ongoing_txn_if_clean
    commit_ongoing_txn_if_clean-Writes dirty clean found h =
        if_true (Writes r.state.last_commit_lsn) (r.state.dirty_txn && not r.state.dirty_stream) _
          (ground arith) (commit_ongoing_txn-Writes found h)

-- The loop tells the primary what was written.
module _ {D T B R : Type 0} (db : Session D T) (e : Engine D B R) (x : Writer B) (ty : Types)
    (no_index : Bool) (now lsn : ℕ) where
  after_tick-sent :
      (l : Loop D B) (o : Replica D B × Outcome LogError Nothing)
      → Writes lsn o
      → let l' = after_tick db e x ty no_index now true l o in
        (l'.replica.state.last_written_lsn ≡ lsn)
        × (l'.running ≡ l.running)
        × (l'.sent ≡ (lsn + 1, l'.replica.database) ∷ l.sent)
  unfolding send_standby_status_update
  after_tick-sent l (r, done _) (_, h) = (h, refl, ap (λ n. (n + 1, r.database) ∷ l.sent) h)
  after_tick-sent l (r, failed _) (h, _) = cc
  after_tick-sent l (r, panicked) (h, _) = cc

-- Where the loop runs with a connection and its transaction has changes but no open stream, the flush interval
-- has passed since the last commit, and the flush and the calls of the session succeed, a tick of the ticker
-- writes the position of the last Commit message, tells the primary the one behind it, and the loop goes on.
pub tick_writes :
    {D T B R : Type 0} (db : Session D T) (e : Engine D B R) (x : Writer B) (ty : Types)
    (no_index : Bool) (now : ℕ) (t : T) (l : Loop D B)
    → Succeeds db
    → (l.running ≡ true) × (l.connected ≡ true)
    → (l.replica.state.dirty_txn ≡ true) × (l.replica.state.dirty_stream ≡ false)
    → 200 < now - l.replica.state.last_commit_time
    → (let d = (db.get_catalog_conn l.replica.database).0 in
        (db.try_get_txn d ≡ some t)
        × ((flush e no_index true time_tick_reason l.replica.state.deltas d).error ≡ none))
    → let l' = step db e x ty no_index now (tick true) l in
      (l'.replica.state.last_written_lsn ≡ l.replica.state.last_commit_lsn)
      × (l'.running ≡ true)
      × (l'.sent ≡ (l.replica.state.last_commit_lsn + 1, l'.replica.database) ∷ l.sent)
unfolding step on_event
tick_writes {D = D} {B = B} db e x ty no_index now t l ok (running, connected) (dirty, clean) late
      (found, flushed) =
    let w =
      commit_ongoing_txn_if_clean-Writes db e no_index now ok time_tick_reason t l.replica dirty
        clean found flushed in
    let (written, still, told) =
      after_tick-sent db e x ty no_index now l.replica.state.last_commit_lsn l
        (commit_ongoing_txn_if_clean db e no_index now time_tick_reason l.replica) w in
    let Told : Loop D B → Type 0 = λ l'.
      (l'.replica.state.last_written_lsn ≡ l.replica.state.last_commit_lsn)
      × (l'.running ≡ true)
      × (l'.sent ≡ (l.replica.state.last_commit_lsn + 1, l'.replica.database) ∷ l.sent) in
    if_false Told (not l.running) l (ap not running) (
      if_true Told l.connected _ connected (
        if_true Told (ltb 200 (now - l.replica.state.last_commit_time)) l
          (lt→ltb 200 (now - l.replica.state.last_commit_time) late)
          (written, still ∙ running, told)))
