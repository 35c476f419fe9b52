-- ===== src/ReplicaController.antt =====
-- binlogreplication/binlog_replica_controller.go: START, STOP and RESET REPLICA, the options of the source and
-- of the filters, and the start with the server.
--
-- The filters are shared by a pointer: a reference into a heap of configurations, which the controller and its
-- applier each hold. Go's goroutine runs as soon as it is started, and is stopped when the stop signal is taken.
-- The mutexes make each operation one step; warnings and logging are left out. The options of the source are set in
-- a copy of what the database holds.
pub mod Options
pub mod Resets
pub mod Restarts
pub mod Status
use Prim.Native.String.{String}
use text.Mathlib.Text.{◌==◌}
use myduckserver.Base.{
  ℕ, ◌+◌, Bool, true, false, not, if◌then◌else◌, Option, none, some, List, [], Outcome, done,
  failed,
}
use myduckserver.Base.Actions.{Action, Nothing, modify, ◌>>◌}
use myduckserver.Base.Maps.{find_id, put_id}
use myduckserver.Charset.{Bytes}
use myduckserver.Filtering.{
  FilterConfiguration, FilterError, new_filter_configuration, get_do_tables, get_ignore_tables,
}
use myduckserver.Applier.{ReplicaStatus, set_io_error}

-- mysql_db.ReplicaSourceInfo
pub record SourceInfo : Type 0 where
  pub host : String
  pub user : String
  pub password : String
  pub port : ℕ
  pub uuid : String
  pub connect_retry_interval : ℕ
  pub connect_retry_count : ℕ
  pub source_log_file : String
  pub source_log_pos : ℕ

-- What os.Stat says of a path that should be a directory.
pub data DirStat : Type 0 where
  is_dir not_dir no_entry stat_failed : DirStat

-- What the controller asks of the "mysql" database, the variables of the server and the file system. A Boolean is
-- whether the call succeeds.
pub record Metadata (D : Type 0) : Type 0 where
  -- whether server_id is set to a number
  pub load_replica_server_id : D → Bool
  -- mysql_db: the source's information, its change and its removal, each with Persist
  pub get_replica_source_info : D → Option SourceInfo
  pub put_replica_source_info : SourceInfo → D → D × Bool
  pub remove_replica_source_info : D → D × Bool
  pub new_replica_source_info : SourceInfo
  pub configure_replication_user : D → D × Bool
  -- os.Stat and os.MkdirAll of the directory ".replica"
  pub stat_replica_dir : D → DirStat
  pub make_replica_dir : D → D × Bool
  -- os.Stat of "replica-running" in it: whether it is there, and no value for another error
  pub stat_running_file : D → Option Bool
  pub create_running_file : D → D × Bool
  pub remove_running_file : D → D × Bool
  -- the texts of the two errors that are shown in the status
  pub empty_hostname_text : Bytes
  pub empty_username_text : Bytes

module _ {D : Type 0} (m : Metadata D) where
  -- loadReplicationConfiguration, persistReplicationConfiguration and deleteReplicationConfiguration of
  -- binlogreplication/binlog_metadata_persistence.go
  abbrev pub load_replication_configuration : D → Option SourceInfo
  load_replication_configuration d = m.get_replica_source_info d

  abbrev pub persist_replication_configuration : SourceInfo → D → D × Bool
  persist_replication_configuration i d = m.put_replica_source_info i d

  abbrev pub delete_replication_configuration : D → D × Bool
  delete_replication_configuration d = m.remove_replica_source_info d

  -- loadReplicationRunningState; the error is no value.
  abbrev pub load_replication_running_state : D → Option Bool
  load_replication_running_state d = m.stat_running_file d

  -- createReplicaDir of binlogreplication/binlog_position_store.go, behind os.Stat
  abbrev pub create_dir : DirStat → D → D × Bool
  create_dir is_dir d = (d, true)
  create_dir no_entry d = m.make_replica_dir d
  create_dir not_dir d = (d, false)
  create_dir stat_failed d = (d, false)

  abbrev pub create_replica_dir : D → D × Bool
  create_replica_dir d = create_dir (m.stat_replica_dir d) d

  -- createEmptyFile, behind os.Stat
  abbrev pub create_empty_file : Option Bool → D → D × Bool
  create_empty_file none d = (d, false)
  create_empty_file (some true) d = (d, true)
  create_empty_file (some false) d = m.create_running_file d

  -- The removal, behind os.Stat
  abbrev pub remove_file : Option Bool → D → D × Bool
  remove_file none d = (d, false)
  remove_file (some true) d = m.remove_running_file d
  remove_file (some false) d = (d, true)

  abbrev pub write_state : Bool → D × Bool → D × Bool
  write_state b (d, false) = (d, false)
  write_state true (d, true) = create_empty_file (m.stat_running_file d) d
  write_state false (d, true) = remove_file (m.stat_running_file d) d

  -- persistReplicaRunningState
  unfoldable pub persist_replica_running_state : Bool → D → D × Bool
  persist_replica_running_state b d = write_state b (create_replica_dir d)

pub data ControlError : Type 0 where
  invalid_server_id not_configured empty_hostname empty_username no_context user_failed :
      ControlError
  still_running delete_failed persist_failed state_failed : ControlError
  wrong_value unknown_option auto_position : ControlError
  filter_failed : FilterError → ControlError

-- myBinlogReplicaController; `applier_filters` and `applier_running` are the filters and the running flag of
-- its applier, `heap` what the references stand for, and `executed` the text of the applier's position.
pub record Controller (D : Type 0) : Type 0 where
  pub status : ReplicaStatus
  pub replica_running : Bool
  pub filters : ℕ
  pub applier_filters : ℕ
  pub heap : List (ℕ × FilterConfiguration)
  pub fresh : ℕ
  pub applier_running : Bool
  pub has_context : Bool
  pub executed : Option String
  pub database : D

abbrev pub Control : Type 0 → Type 0
Control D = Action (Controller D) ControlError Nothing

-- ERFatalReplicaError
abbrev er_fatal_replica_error : ℕ
er_fatal_replica_error = 13117

-- The status without an error.
unfoldable pub no_errors : ReplicaStatus → ReplicaStatus
no_errors s = record s {
  last_io_err_number = 0;
  last_sql_err_number = 0;
  last_io_error_timestamp = none;
  last_sql_error_timestamp = none;
  last_sql_error = [];
  last_io_error = [];
}

-- What the filters of the applier are.
abbrev pub applier_configuration : {D : Type 0} → Controller D → Option FilterConfiguration
applier_configuration c = find_id c.applier_filters c.heap

module _ {D : Type 0} (m : Metadata D) where
  abbrev io_failed : ℕ → Bytes → ControlError → Control D
  io_failed now message err c =
      (record c { status = set_io_error now er_fatal_replica_error message c.status }, failed err)

  -- The user, the applier's start, and the record of it, whose error is only logged.
  abbrev pub started : D × Bool → Control D
  started (d, false) c = (record c { database = d }, failed user_failed)
  started (d, true) c = (
    record c { applier_running = true; database = (persist_replica_running_state m true d).0 },
    done tt,
  )

  -- The tests on the configuration.
  unfoldable pub start_configured : ℕ → SourceInfo → Control D
  start_configured now i c =
      if i.host == ""
      then io_failed now m.empty_hostname_text empty_hostname c
      else if i.user == ""
      then io_failed now m.empty_username_text empty_username c
      else if not c.has_context
      then (c, failed no_context)
      else started (m.configure_replication_user c.database) c

  abbrev pub start_loaded : ℕ → Option SourceInfo → Control D
  start_loaded now none c = (c, failed not_configured)
  start_loaded now (some i) c = start_configured now i c

  -- StartReplica
  unfoldable pub start_replica : ℕ → Control D
  start_replica now c =
      if c.applier_running
      then (c, done tt)
      else if not (m.load_replica_server_id c.database)
      then (c, failed invalid_server_id)
      else start_loaded now (load_replication_configuration m c.database) c

  -- StopReplica
  unfoldable pub stop_replica : Control D
  stop_replica c = if not c.applier_running then (c, done tt) else (
    record c {
      applier_running = false;
      replica_running = false;
      database = (persist_replica_running_state m false c.database).0;
    },
    done tt,
  )

  abbrev pub forgotten : D × Bool → Control D
  forgotten (d, false) c = (record c { database = d }, failed delete_failed)
  forgotten (d, true) c = (
    record c {
      filters = c.fresh;
      heap = put_id c.fresh new_filter_configuration c.heap;
      fresh = c.fresh + 1;
      database = d;
    },
    done tt,
  )

  -- ResetReplica
  unfoldable pub reset_replica : Bool → Control D
  reset_replica all c =
      if c.applier_running
      then (c, failed still_running)
      else if all
      then forgotten (delete_replication_configuration m c.database)
          (record c { status = no_errors c.status })
      else (record c { status = no_errors c.status }, done tt)

  abbrev pub start_if : ℕ → Option Bool → Control D
  start_if now none c = (c, failed state_failed)
  start_if now (some false) c = (c, done tt)
  start_if now (some true) c = start_replica now c

  -- AutoStart
  unfoldable pub auto_start : ℕ → Control D
  auto_start now c = start_if now (load_replication_running_state m c.database) c
