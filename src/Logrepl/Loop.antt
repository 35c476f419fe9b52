-- ===== src/Logrepl/Loop.antt =====
-- The loop of StartReplication in pgserver/logrepl/replication.go, as steps on what happens: a message, a
-- tick, a lost connection, a request to stop. Each step has the time at which it is taken.
use myduckserver.Base.{
  ℕ, ◌+◌, ◌-◌, ltb, Bool, true, false, not, if◌then◌else◌, Option, List, ◌∷◌, Outcome, done, failed,
  panicked,
}
use myduckserver.Base.Actions.{Nothing, ◌>>◌, ignoring}
use myduckserver.Delta.{time_tick as time_tick_reason, on_close}
use myduckserver.Delta.Flush.{Engine}
use myduckserver.Logrepl.{Message, LogError, reset, Replica}
use myduckserver.Logrepl.Session.{Session}
use myduckserver.Logrepl.Rows.{Writer}
use myduckserver.Logrepl.Commit.{commit_ongoing_txn_if_clean, rollback_txn}
use myduckserver.Logrepl.Messages.{Types, process_message}

abbrev pub max_consecutive_failures : ℕ
max_consecutive_failures = 10

-- A Boolean `sent` is whether a status update that the step sends gets through.
pub data Event : Type 0 where
  -- beginReplication returns a connection, or an error
  connect : Bool → Event
  -- the deadline of the status update has passed
  deadline : Bool → Event
  -- the ticker of the flush interval
  tick : Bool → Event
  -- a keepalive message: its position, and whether a reply is requested
  keepalive : ℕ → Bool → Bool → Event
  -- an XLogData message: its position, and what ParseV2 makes of it
  xlog : ℕ → Option Message → Bool → Event
  -- ReceiveMessage fails, other than by a timeout
  receive_failed : Event
  -- the primary sends an error, or a message that cannot be parsed
  fatal : Event
  stop : Event

-- `sent` holds the flush positions that the primary was told, each with the database at that time.
pub record Loop (D B : Type 0) : Type 0 where
  pub replica : Replica D B
  pub conn_err_cnt : ℕ
  pub connected : Bool
  pub running : Bool
  pub sent : List (ℕ × D)

module _ {D T B R : Type 0} (db : Session D T) (e : Engine D B R) (x : Writer B) (ty : Types)
    (no_index : Bool) where
  -- The deferred shutdown behind the loop, whose results nobody reads.
  unfoldable pub shutdown : ℕ → Loop D B → Loop D B
  shutdown now l = record l {
    replica =
        ((ignoring (commit_ongoing_txn_if_clean db e no_index now on_close)
            >> ignoring (rollback_txn db))
          l.replica).0;
    running = false;
  }

  -- handleErrWithRetry, which is only called with an error
  unfoldable pub handle_err_with_retry : ℕ → Bool → Loop D B → Loop D B
  handle_err_with_retry now increment l =
      let n = if increment then l.conn_err_cnt + 1 else l.conn_err_cnt in
      if ltb n max_consecutive_failures
      then record l { conn_err_cnt = n; connected = false }
      else shutdown now (record l { conn_err_cnt = n })

  unfoldable pub send_standby_status_update : ℕ → Bool → Loop D B → Loop D B
  send_standby_status_update now ok l =
      if ok
      then record l { sent = (l.replica.state.last_written_lsn + 1, l.replica.database) ∷ l.sent }
      else handle_err_with_retry now false l

  -- The state is reset on a new connection, after a rollback.
  abbrev pub after_rollback : ℕ → Loop D B → Replica D B × Outcome LogError Nothing → Loop D B
  after_rollback now l (r, done _) = record l {
    connected = true;
    replica = record r { state = reset r.state.last_written_lsn now };
  }
  after_rollback now l (r, failed _) = shutdown now (record l { replica = r; connected = true })
  after_rollback now l (r, panicked) = shutdown now (record l { replica = r; connected = true })

  unfoldable pub reconnect : ℕ → Loop D B → Loop D B
  reconnect now l = after_rollback now l (rollback_txn db l.replica)

  abbrev pub after_tick : ℕ → Bool → Loop D B → Replica D B × Outcome LogError Nothing → Loop D B
  after_tick now ok l (r, done _) = send_standby_status_update now ok (record l { replica = r })
  after_tick now ok l (r, failed _) = shutdown now (record l { replica = r })
  after_tick now ok l (r, panicked) = shutdown now (record l { replica = r })

  abbrev pub after_message : ℕ → Bool → Loop D B → Replica D B × Outcome LogError Bool → Loop D B
  after_message now ok l (r, done true) =
      send_standby_status_update now ok (record l { replica = r })
  after_message now ok l (r, done false) = record l { replica = r }
  after_message now ok l (r, failed _) = handle_err_with_retry now true (record l { replica = r })
  after_message now ok l (r, panicked) = shutdown now (record l { replica = r })

  -- What happens while there is a connection.
  unfoldable pub on_event : ℕ → Event → Loop D B → Loop D B
  on_event now (connect ok) l = l
  on_event now (deadline ok) l =
      if ltb 0 l.replica.state.last_received_lsn then send_standby_status_update now ok l else l
  on_event now (tick ok) l =
      if ltb 200 (now - l.replica.state.last_commit_time)
      then after_tick now ok l
          (commit_ongoing_txn_if_clean db e no_index now time_tick_reason l.replica)
      else l
  on_event now (keepalive wal_end reply ok) l =
      let l' = record l {
        replica = record l.replica {
          state = record l.replica.state { last_received_lsn = wal_end };
        };
      } in
      if reply then send_standby_status_update now ok l' else l'
  on_event now (xlog wal_end m ok) l =
      after_message now ok l (process_message db e x ty no_index now wal_end m l.replica)
  on_event now receive_failed l = handle_err_with_retry now true l
  on_event now fatal l = shutdown now l
  on_event now stop l = shutdown now l

  -- What happens without one: the loop connects, or is stopped.
  unfoldable pub on_lost : ℕ → Event → Loop D B → Loop D B
  on_lost now (connect true) l = reconnect now l
  on_lost now (connect false) l = handle_err_with_retry now true l
  on_lost now stop l = shutdown now l
  on_lost now _ l = l

  unfoldable pub step : ℕ → Event → Loop D B → Loop D B
  step now ev l =
      if not l.running then l else if l.connected then on_event now ev l else on_lost now ev l

  -- The states that the loop reaches.
  pub data Reach (l : Loop D B) : Loop D B → Type 0 where
    here : Reach l l
    next : {m : Loop D B} (now : ℕ) (ev : Event) → Reach l m → Reach l (step now ev m)
