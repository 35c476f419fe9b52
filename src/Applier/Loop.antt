-- ===== src/Applier/Loop.antt =====
-- The loop of replicaBinlogEventHandler in binlogreplication/binlog_replica_applier.go, as steps on what
-- happens. Each step has the time at which it is taken.
use Prim.Native.String.{String}
use myduckserver.Base.{
  ℕ, Bool, true, false, not, ◌&&◌, if◌then◌else◌, some, Outcome, done, failed, panicked,
}
use myduckserver.Base.Actions.{Nothing}
use myduckserver.Charset.{Bytes}
use myduckserver.Delta.{on_close}
use myduckserver.Delta.Flush.{Engine}
use myduckserver.Applier.{
  Positions, ReplicaStatus, ApplyError, Applier, Applying, set_status, connection_failed,
}
use myduckserver.Applier.Server.{Server}
use myduckserver.Applier.Commit.{
  record_error, normal_commit, commit_ongoing_txn, extend_or_commit_batch_txn,
}
use myduckserver.Applier.Connecting.{start_replication_event_stream, note_source_uuid}
use myduckserver.Applier.Rows.{Rower}
use myduckserver.Applier.Events.{BinlogReader, process_binlog_event}

-- ERNetReadError
abbrev er_net_read_error : ℕ
er_net_read_error = 1158

-- How the loop of connectAndStartReplicationEventStream ends: with a connection, whose flavor and GTID mode are
-- known, with ErrReplicationStopped, or with another error.
pub data Connected : Type 0 where
  connected : String → Bool → Connected
  connect_stopped connect_failed : Connected

-- What the channels give: an event, an SQL error of the producer with its text and whether it says that
-- the connection is lost, another error of it, the ticker, the request to stop.
pub data Happening (E : Type 0) : Type 0 where
  connecting : Connected → Happening E
  binlog_event : E → Happening E
  sql_error : Bytes → Bool → Happening E
  producer_error : ApplyError → Happening E
  ticking stopping : Happening E

pub record Handler (D B P : Type 0) : Type 0 where
  pub applying : Applying D B P
  pub has_conn : Bool
  pub running : Bool

module _ {D T P X V B R E : Type 0} (v : Server D T P V) (p : Positions P) (e : Engine D B R)
    (w : Rower B X V) (x : BinlogReader E) (no_index : Bool) where
  -- recordReplicationError of an error, if there is one; a panic ends the loop.
  unfoldable pub log_outcome :
      ℕ → Handler D B P → Applying D B P × Outcome ApplyError Nothing → Handler D B P
  log_outcome now h (r, done _) = record h { applying = r }
  log_outcome now h (r, failed err) = record h { applying = (record_error v now err r).0 }
  log_outcome now h (r, panicked) = record h { applying = r; running = false }

  -- What is in a batch, and ends with a commit event, as far as the flags say.
  unfoldable pub is_clean_batch : Applier B P → Bool
  is_clean_batch a = a.ongoing_batch_txn && not a.dirty_stream

  -- The ticker
  unfoldable pub on_tick : ℕ → Handler D B P → Handler D B P
  on_tick now h =
      if is_clean_batch h.applying.applier
      then log_outcome now h (extend_or_commit_batch_txn v p e no_index now h.applying)
      else h

  -- The request to stop
  unfoldable pub on_stop : ℕ → Handler D B P → Handler D B P
  on_stop now h =
      if is_clean_batch h.applying.applier
      then record (log_outcome now h
          (commit_ongoing_txn v p e no_index now normal_commit on_close h.applying)) {
            running = false;
          }
      else record h { running = false }

  abbrev net_read_error : ℕ → Bytes → ReplicaStatus → ReplicaStatus
  net_read_error now message s = record s {
    last_io_error = message;
    last_io_err_number = er_net_read_error;
    last_io_error_timestamp = some now;
  }

  -- The select of the loop, while there is a connection.
  unfoldable pub handle : ℕ → Happening E → Handler D B P → Handler D B P
  handle now (connecting c) h = h
  handle now (binlog_event ev) h =
      log_outcome now h (process_binlog_event v p e w x no_index now ev h.applying)
  handle now (sql_error message bad) h =
      if bad
      then record h {
        applying = set_status (net_read_error now message) h.applying;
        has_conn = false;
      }
      else h
  handle now (producer_error err) h = record h { applying = (record_error v now err h.applying).0 }
  handle now ticking h = on_tick now h
  handle now stopping h = on_stop now h

  abbrev pub end_of_connecting : ℕ → Handler D B P → Handler D B P
  end_of_connecting now h = record h {
    applying = (record_error v now connection_failed h.applying).0;
    running = false;
  }

  -- With the stream of events, or without.
  abbrev pub streaming : ℕ → Handler D B P → Applying D B P × Bool → Handler D B P
  streaming now h (r, true) = record h { applying = r; has_conn = true }
  streaming now h (r, false) = end_of_connecting now (record h { applying = r })

  abbrev pub connect_to : ℕ → Connected → Handler D B P → Handler D B P
  connect_to now (connected flavor gtid_mode) h =
      streaming now h (start_replication_event_stream v p now flavor gtid_mode h.applying)
  connect_to now connect_stopped h = record h { running = false }
  connect_to now connect_failed h = end_of_connecting now h

  -- The part before the select; an error that ends the loop is recorded by Go.
  unfoldable pub connect : ℕ → Happening E → Handler D B P → Handler D B P
  connect now (connecting c) h =
      connect_to now c (record h { applying = note_source_uuid v p h.applying })
  connect now _ h = h

  unfoldable pub turn : ℕ → Happening E → Handler D B P → Handler D B P
  turn now ev h =
      if not h.running then h else if h.has_conn then handle now ev h else connect now ev h

  -- The states that the loop reaches.
  pub data Reaches (h : Handler D B P) : Handler D B P → Type 0 where
    at_start : Reaches h h
    turned :
        {k : Handler D B P} (now : ℕ) (ev : Happening E) → Reaches h k → Reaches h (turn now ev k)
