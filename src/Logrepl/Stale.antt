-- ===== src/Logrepl/Stale.antt =====
-- A transaction that the primary sends again after a reconnection.
use myduckserver.Base.{
  ℕ, ◌<◌, lt→ltb, Bool, true, false, ◌&&◌, some, List, [], ◌∷◌, done, ◌≡◌, refl, arith,
}
use myduckserver.Base.Actions.{◌>>◌, modify}
use myduckserver.Delta.Flush.{Engine}
use myduckserver.Logrepl.{
  Message, relation_message, begin_message, commit_message, insert_message, update_message,
  delete_message, truncate_message, stream_start, stream_stop, other_message, Replica, set_state,
}
use myduckserver.Logrepl.Session.{Session}
use myduckserver.Logrepl.Rows.{Writer}
use myduckserver.Logrepl.Messages.{
  Types, receive, unless_stale, process_begin, process, process_message,
}

-- The messages that change rows.
abbrev pub is_row : Message → Bool
is_row (insert_message _ _) = true
is_row (update_message _ _ _) = true
is_row (delete_message _ _) = true
is_row (truncate_message _) = true
is_row _ = false

-- Messages with the time and the position at which each is received.
abbrev pub all_rows : List (ℕ × ℕ × Message) → Bool
all_rows [] = true
all_rows ((_, _, m) ∷ ms) = is_row m && all_rows ms

module _ {D T B R : Type 0} (db : Session D T) (e : Engine D B R) (x : Writer B) (ty : Types)
    (no_index : Bool) where
  abbrev pub process_messages : List (ℕ × ℕ × Message) → Replica D B → Replica D B
  process_messages [] r = r
  process_messages ((now, wal_end, m) ∷ ms) r =
      process_messages ms (process_message db e x ty no_index now wal_end (some m) r).0

  process_message-stale :
      (now wal_end : ℕ) (m : Message) (r : Replica D B)
      → is_row m ≡ true
      → r.state.process_messages ≡ false
      → process_message db e x ty no_index now wal_end (some m) r
        ≡ (set_state (receive wal_end) r, done false)
  unfolding process_message process unless_stale receive ◌>>◌ modify
  process_message-stale now wal_end (insert_message _ _) r h p = ground arith
  process_message-stale now wal_end (update_message _ _ _) r h p = ground arith
  process_message-stale now wal_end (delete_message _ _) r h p = ground arith
  process_message-stale now wal_end (truncate_message _) r h p = ground arith
  process_message-stale now wal_end (relation_message _ _) r h p = ground arith
  process_message-stale now wal_end (begin_message _) r h p = ground arith
  process_message-stale now wal_end (commit_message _) r h p = ground arith
  process_message-stale now wal_end stream_start r h p = ground arith
  process_message-stale now wal_end stream_stop r h p = ground arith
  process_message-stale now wal_end other_message r h p = ground arith

  process_message-stale_begin :
      (now wal_end lsn : ℕ) (r : Replica D B)
      → lsn < r.state.last_written_lsn
      → process_message db e x ty no_index now wal_end (some (begin_message lsn)) r ≡ (
        set_state (λ s. record s { process_messages = false }) (set_state (receive wal_end) r),
        done false,
      )
  unfolding process_message process process_begin receive ◌>>◌ modify
  process_message-stale_begin now wal_end lsn r p = rw (lt→ltb lsn r.state.last_written_lsn p) refl

  process_messages-stale :
      (ms : List (ℕ × ℕ × Message)) (r : Replica D B)
      → all_rows ms ≡ true
      → r.state.process_messages ≡ false
      → ((process_messages ms r).database ≡ r.database)
        × ((process_messages ms r).state.deltas ≡ r.state.deltas)
        × ((process_messages ms r).state.last_written_lsn ≡ r.state.last_written_lsn)
  unfolding receive
  process_messages-stale [] r h p = (refl, refl, refl)
  process_messages-stale ((now, wal_end, m) ∷ ms) r h p =
      let (row, rows) : (is_row m ≡ true) × (all_rows ms ≡ true) = (ground arith, ground arith) in
      rw (process_messages, process_message-stale now wal_end m r row p)
        (process_messages-stale ms (set_state (receive wal_end) r) rows p)

  -- After a Begin whose final position is below the last written one, any sequence of changes of rows leaves the
  -- database, the delta buffer and the written position as they were: a transaction that the primary sends again
  -- is not applied a second time.
  pub stale_transaction :
      (now wal_end lsn : ℕ) (ms : List (ℕ × ℕ × Message)) (r : Replica D B)
      → lsn < r.state.last_written_lsn
      → all_rows ms ≡ true
      → let r' = process_messages ((now, wal_end, begin_message lsn) ∷ ms) r in
        (r'.database ≡ r.database)
        × (r'.state.deltas ≡ r.state.deltas)
        × (r'.state.last_written_lsn ≡ r.state.last_written_lsn)
  unfolding receive
  stale_transaction now wal_end lsn ms r p h =
      rw (process_messages, process_message-stale_begin now wal_end lsn r p)
        (process_messages-stale ms
          (set_state (λ s. record s { process_messages = false }) (set_state (receive wal_end) r)) h
          refl)
