-- ===== src/ReplicaController/Status.antt =====
-- GetReplicaStatus of binlogreplication/binlog_replica_controller.go: what SHOW REPLICA STATUS shows.
use Prim.Native.String.{String}
use text.Mathlib.Text.{◌==◌}
use myduckserver.Base.{
  ℕ, Bool, if◌then◌else◌, Option, none, some, List, [], Outcome, done, panicked,
}
use myduckserver.Base.Maps.{find_id}
use myduckserver.Filtering.{FilterConfiguration, get_do_tables, get_ignore_tables}
use myduckserver.Applier.{ReplicaStatus}
use myduckserver.ReplicaController.{
  load_replication_configuration, SourceInfo, Metadata, ControlError, Controller,
}

-- binlogreplication.ReplicaStatus; the fields that the controller sets once are those of a new controller.
pub record StatusReport : Type 0 where
  pub errors : ReplicaStatus
  pub replica_running : Bool
  pub source_user : String
  pub source_host : String
  pub source_port : ℕ
  pub source_log_file : String
  pub source_log_pos : ℕ
  pub source_server_uuid : String
  pub connect_retry : ℕ
  pub source_retry_count : ℕ
  pub replicate_do_tables : List String
  pub replicate_ignore_tables : List String
  pub executed_gtid_set : String
  pub retrieved_gtid_set : String

-- newMyBinlogReplicaController, and what has changed of the status since
abbrev pub own_status : {D : Type 0} → Controller D → StatusReport
own_status c = record {
  errors = c.status;
  replica_running = c.replica_running;
  source_user = "";
  source_host = "";
  source_port = 0;
  source_log_file = "";
  source_log_pos = 0;
  source_server_uuid = "";
  connect_retry = 60;
  source_retry_count = 86400;
  replicate_do_tables = [];
  replicate_ignore_tables = [];
  executed_gtid_set = "";
  retrieved_gtid_set = "";
}

-- changeSourceLogFileToInvalidIfEmpty
unfoldable pub change_source_log_file_to_invalid_if_empty : StatusReport → StatusReport
change_source_log_file_to_invalid_if_empty s =
    if s.source_log_file == "" then record s { source_log_file = "INVALID" } else s

abbrev with_source : SourceInfo → StatusReport → StatusReport
with_source i s = record s {
  source_user = i.user;
  source_host = i.host;
  source_port = i.port;
  source_log_file = i.source_log_file;
  source_log_pos = i.source_log_pos;
  source_server_uuid = i.uuid;
  connect_retry = i.connect_retry_interval;
  source_retry_count = i.connect_retry_count;
}

abbrev with_filters : FilterConfiguration → StatusReport → StatusReport
with_filters fc s = record s {
  replicate_do_tables = get_do_tables fc;
  replicate_ignore_tables = get_ignore_tables fc;
}

abbrev with_position : Option String → StatusReport → StatusReport
with_position none s = s
with_position (some p) s = record s { executed_gtid_set = p; retrieved_gtid_set = p }

abbrev reported :
    {D : Type 0}
    → Option SourceInfo
    → Option FilterConfiguration
    → Controller D
    → Outcome ControlError StatusReport
reported none _ c = done (change_source_log_file_to_invalid_if_empty (own_status c))
reported (some i) none c = panicked
reported (some i) (some fc) c = done (
    change_source_log_file_to_invalid_if_empty
      (with_position c.executed (with_filters fc (with_source i (own_status c)))))

-- GetReplicaStatus
unfoldable pub get_replica_status :
    {D : Type 0} → Metadata D → Controller D → Outcome ControlError StatusReport
get_replica_status m c =
    reported (load_replication_configuration m c.database) (find_id c.filters c.heap) c
