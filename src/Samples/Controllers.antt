-- ===== src/Samples/Controllers.antt =====
-- A database with the configuration of a replica and the record of its state, and controllers on it.
use myduckserver.Base.{
  Bool, true, false, Option, none, some, List, [], ◌∷◌, done, failed, ◌≡◌, refl, arith,
}
use myduckserver.Filtering.{new_filter_configuration}
use myduckserver.ReplicaController.{
  no_entry, persist_replica_running_state, SourceInfo, Metadata, Controller, not_configured,
  no_errors, applier_configuration, start_configured, start_replica, stop_replica, reset_replica,
  auto_start,
}
use myduckserver.ReplicaController.Options.{
  ReplicationOption, tables_value, set_replication_filter_options,
}
use myduckserver.ReplicaController.Resets.{
  Deletes, reset_replica-set_replication_filter_options, reset_replica-start_replica,
}
use myduckserver.ReplicaController.Restarts.{
  KeepsRecords, start_replica-auto_start, stop_replica-auto_start,
}

record Store : Type 0 where
  configuration : Option SourceInfo
  running : Bool

abbrev no_source : SourceInfo
no_source = record {
  host = "";
  user = "";
  password = "";
  port = 3306;
  uuid = "";
  connect_retry_interval = 60;
  connect_retry_count = 3;
  source_log_file = "";
  source_log_pos = 0;
}

abbrev metadata : Metadata Store
metadata = record {
  load_replica_server_id = λ d. true;
  get_replica_source_info = λ d. d.configuration;
  put_replica_source_info = λ i d. (record d { configuration = some i }, true);
  remove_replica_source_info = λ d. (record d { configuration = none }, true);
  new_replica_source_info = no_source;
  configure_replication_user = λ d. (d, true);
  stat_replica_dir = λ d. no_entry;
  make_replica_dir = λ d. (d, true);
  stat_running_file = λ d. some d.running;
  create_running_file = λ d. (record d { running = true }, true);
  remove_running_file = λ d. (record d { running = false }, true);
  empty_hostname_text = 69 ∷ [];
  empty_username_text = 70 ∷ [];
}

metadata-Deletes : Deletes metadata
metadata-Deletes d h = refl

metadata-KeepsRecords : KeepsRecords metadata
metadata-KeepsRecords = record {
  created = λ d h. refl;
  removed = λ d h. refl;
  dir_source = λ d. refl;
  file_source = λ d. refl;
  user_source = λ d. refl;
  dir_id = λ d. refl;
  file_id = λ d. refl;
  user_id = λ d. refl;
}

abbrev stopped : Controller Store
stopped = record {
  status = record {
    source_server_id = 0;
    last_sql_error = [];
    last_sql_err_number = 0;
    last_sql_error_timestamp = none;
    last_io_error = 69 ∷ [];
    last_io_err_number = 13117;
    last_io_error_timestamp = some 3;
  };
  replica_running = false;
  filters = 0;
  applier_filters = 0;
  heap = (0, new_filter_configuration) ∷ [];
  fresh = 1;
  applier_running = false;
  has_context = true;
  executed = none;
  database = record {
    configuration = some (record no_source { host = "primary"; user = "replicator" });
    running = false;
  };
}

-- The same after a RESET REPLICA ALL.
abbrev forgotten_source : Controller Store
forgotten_source = record stopped {
  status = record stopped.status {
    last_io_error = [];
    last_io_err_number = 0;
    last_io_error_timestamp = none;
  };
  filters = 1;
  heap = (0, new_filter_configuration) ∷ (1, new_filter_configuration) ∷ [];
  fresh = 2;
  database = record stopped.database { configuration = none };
}

abbrev started_replica : Controller Store
started_replica = record stopped {
  applier_running = true;
  database = record stopped.database { running = true };
}

abbrev ignored_orders : List ReplicationOption
ignored_orders =
    record {
      name = "REPLICATE_IGNORE_TABLE";
      value = tables_value (record { database = "shop"; name = "orders" } ∷ []);
    }
    ∷ []

stopped-reset_replica : reset_replica metadata true stopped ≡ (forgotten_source, done tt)
unfolding reset_replica no_errors
stopped-reset_replica = refl

stopped-start_replica : start_replica metadata 7 stopped ≡ (started_replica, done tt)
unfolding start_replica start_configured persist_replica_running_state
stopped-start_replica = refl

reset_replica-set_replication_filter_options_example :
    applier_configuration
      (set_replication_filter_options (λ s. s) (λ s. s) ignored_orders forgotten_source).0
    ≡ applier_configuration stopped
reset_replica-set_replication_filter_options_example =
    reset_replica-set_replication_filter_options metadata (λ s. s) (λ s. s) ignored_orders stopped
      forgotten_source (omega arith) stopped-reset_replica

reset_replica-start_replica_example :
    start_replica metadata 7 forgotten_source ≡ (forgotten_source, failed not_configured)
reset_replica-start_replica_example =
    reset_replica-start_replica metadata 7 stopped forgotten_source metadata-Deletes
      stopped-reset_replica

written : (persist_replica_running_state metadata true stopped.database).1 ≡ true
unfolding persist_replica_running_state
written = refl

start_replica-auto_start_example :
    let r = auto_start metadata 9 (record stopped { database = started_replica.database }) in
    (r.0.applier_running ≡ true) × (r.1 ≡ done tt)
start_replica-auto_start_example =
    start_replica-auto_start metadata 7 9 stopped started_replica
      (record stopped { database = started_replica.database }) metadata-KeepsRecords refl
      stopped-start_replica written refl refl refl refl

unwritten : (persist_replica_running_state metadata false started_replica.database).1 ≡ true
unfolding persist_replica_running_state
unwritten = refl

stopped-database : stopped.database ≡ (stop_replica metadata started_replica).0.database
unfolding stop_replica persist_replica_running_state
stopped-database = refl

stop_replica-auto_start_example : auto_start metadata 9 stopped ≡ (stopped, done tt)
stop_replica-auto_start_example =
    stop_replica-auto_start metadata 9 started_replica stopped metadata-KeepsRecords refl unwritten
      stopped-database
