-- ===== src/Applier/Connecting.antt =====
-- startReplicationEventStream of binlogreplication/binlog_replica_applier.go, with loadGtidPosition and
-- loadLogFilePosition, and Load of binlog_position_store.go: what a connection begins with.
use Prim.Native.String.{String}
use text.Mathlib.Text.{◌==◌}
use myduckserver.Base.{ℕ, Bool, true, false, if◌then◌else◌, Option, none, some, []}
use myduckserver.Applier.{Positions, Applier, Applying}
use myduckserver.Applier.Server.{Server}

module _ {D T P V : Type 0} (v : Server D T P V) (p : Positions P) (flavor : String) where
  abbrev pub parsed_row : Option String → Option P
  parsed_row none = some p.zero_position
  parsed_row (some text) = v.parse_position flavor (v.trim_prefix "MySQL56/" text)

  abbrev pub loaded : Option (Option String) → Option P
  loaded none = none
  loaded (some row) = parsed_row row

  -- binlogPositionStore.Load
  unfoldable pub load_position : D → Option P
  load_position d = loaded (v.stored_position d)

  abbrev pub parsed_purged : Option String → P → Option P
  parsed_purged none q = some q
  parsed_purged (some text) q = v.parse_position flavor (v.trim_prefix "+" text)

  -- The GTIDs that were purged, where none is stored.
  abbrev pub or_purged : D → Option P → Option P
  or_purged d none = none
  or_purged d (some q) = if p.is_zero q then parsed_purged (v.gtid_purged d) q else some q

  -- Another position, where there is none yet.
  abbrev pub or_position : P → Option P → Option P
  or_position first none = none
  or_position first (some q) = some (if p.is_zero q then first else q)

  -- loadGtidPosition
  unfoldable pub load_gtid_position : D → Option P
  load_gtid_position d = or_position v.first_position (or_purged d (load_position d))

  -- loadLogFilePosition
  unfoldable pub load_log_file_position : D → Option P
  load_log_file_position d = or_position (v.source_position d) (load_position d)

  abbrev pub start_position : Bool → D → Option P
  start_position true d = load_gtid_position d
  start_position false d = load_log_file_position d

-- The state behind the position, without transactions; DiscardDeltaBuffer clears the tables with their deltas.
unfoldable pub begin_stream : {B P : Type 0} → ℕ → P → Applier B P → Applier B P
begin_stream now q a = record a {
  current_position = q;
  pending_position = q;
  format = none;
  previous_gtid = none;
  current_gtid = none;
  ongoing_batch_txn = false;
  dirty_txn = false;
  dirty_stream = false;
  in_txn_stmt_id = 0;
  last_commit_time = now;
  deltas = [];
  delta_buf_size = 0;
}

abbrev uuid_or : String → String → String
uuid_or old uuid = if uuid == "" then old else uuid

module _ {D T P V : Type 0} (v : Server D T P V) (p : Positions P) where
  -- gtid_executed, in GTID mode
  abbrev pub executed_assigned : Bool → P → D → D
  executed_assigned true q d = v.assign_gtid_executed q d
  executed_assigned false q d = d

  abbrev pub begun_at : {B : Type 0} → ℕ → Bool → Option P → Applying D B P → Applying D B P × Bool
  begun_at now gtid_mode none r = (r, false)
  begun_at now gtid_mode (some q) r = (
    record r {
      applier = begin_stream now q r.applier;
      database = executed_assigned gtid_mode q r.database;
    },
    v.request_events q r.database,
  )

  -- startReplicationEventStream; the Boolean is whether it succeeds.
  unfoldable pub start_replication_event_stream :
      {B : Type 0} → ℕ → String → Bool → Applying D B P → Applying D B P × Bool
  start_replication_event_stream now flavor gtid_mode r =
      if v.load_replica_server_id r.database
      then begun_at now gtid_mode (start_position v p flavor gtid_mode r.database) r
      else (r, false)

  -- The identity of the source, as the configuration has it.
  unfoldable pub note_source_uuid : {B : Type 0} → Applying D B P → Applying D B P
  note_source_uuid r = record r {
    applier = record r.applier {
      replication_source_uuid =
          uuid_or r.applier.replication_source_uuid (v.configured_uuid r.database);
    };
  }
