-- ===== src/ReplicaController/Options.antt =====
-- SetReplicationSourceOptions and SetReplicationFilterOptions of binlogreplication/binlog_replica_controller.go,
-- with the functions that read an option's value.
use Prim.Native.String.{String}
use text.Mathlib.Text.{◌==◌}
use myduckserver.Base.{
  ℕ, suc, ◌-◌, ◌%◌, ◌^◌, Bool, true, false, if◌then◌else◌, Option, none, some, List, [], ◌∷◌, map,
  Outcome, done, failed, panicked, ◌>>=◌,
}
use myduckserver.Base.Int.{ℤ, pos, negsuc}
use myduckserver.Base.Maps.{find_id, put_id}
use myduckserver.Filtering.{
  FilterConfiguration, UnresolvedTable, FilterError, set_do_databases, set_ignore_databases,
  set_do_tables, set_ignore_tables,
}
use myduckserver.ReplicaController.{
  load_replication_configuration, persist_replication_configuration, SourceInfo, Metadata,
  ControlError, persist_failed, wrong_value, unknown_option, auto_position, filter_failed,
  Controller, Control,
}

-- The values of binlogreplication.ReplicationOption
pub data OptionValue : Type 0 where
  string_value : String → OptionValue
  integer_value : ℤ → OptionValue
  tables_value : List UnresolvedTable → OptionValue

pub record ReplicationOption : Type 0 where
  pub name : String
  pub value : OptionValue

-- getOptionValueAsString, getOptionValueAsInt, getOptionValueAsTableNames, getOptionValueAsDatabaseNames
unfoldable pub get_option_value_as_string : ReplicationOption → Outcome ControlError String
get_option_value_as_string o = elim o.value [ string_value s ↦ done s | _ ↦ failed wrong_value ]

unfoldable pub get_option_value_as_int : ReplicationOption → Outcome ControlError ℤ
get_option_value_as_int o = elim o.value [ integer_value n ↦ done n | _ ↦ failed wrong_value ]

unfoldable pub get_option_value_as_table_names :
    ReplicationOption → Outcome ControlError (List UnresolvedTable)
get_option_value_as_table_names o = elim o.value [
  | tables_value ts ↦ done ts
  | _ ↦ failed wrong_value
]

unfoldable pub get_option_value_as_database_names :
    ReplicationOption → Outcome ControlError (List String)
get_option_value_as_database_names o = elim o.value [
  | tables_value ts ↦ done (map (λ t. t.name) ts)
  | _ ↦ failed wrong_value
]

-- uint16(n), uint32(n) and uint64(n) of an int
abbrev pub to_unsigned : ℕ → ℤ → ℕ
to_unsigned w (pos n) = n % 2 ^ w
to_unsigned w (negsuc n) = 2 ^ w - 1 - n % 2 ^ w

abbrev below_one : ℤ → Bool
below_one (pos (suc n)) = false
below_one _ = true

module _ (upper : String → String) where
  -- One option of the source.
  unfoldable pub set_source_option :
      ReplicationOption → SourceInfo → Outcome ControlError SourceInfo
  unfolding get_option_value_as_string get_option_value_as_int
  set_source_option o i =
      let name = upper o.name in
      let text = get_option_value_as_string o in
      let number = get_option_value_as_int o in
      if name == "SOURCE_HOST"
      then text >>= (λ s. done (record i { host = s }))
      else if name == "SOURCE_USER"
      then text >>= (λ s. done (record i { user = s }))
      else if name == "SOURCE_PASSWORD"
      then text >>= (λ s. done (record i { password = s }))
      else if name == "SOURCE_PORT"
      then number >>= (λ n. done (record i { port = to_unsigned 16 n }))
      else if name == "SOURCE_CONNECT_RETRY"
      then number >>= (λ n. done (record i { connect_retry_interval = to_unsigned 32 n }))
      else if name == "SOURCE_RETRY_COUNT"
      then number >>= (λ n. done (record i { connect_retry_count = to_unsigned 64 n }))
      else if name == "SOURCE_LOG_FILE"
      then text >>= (λ s. done (record i { source_log_file = s }))
      else if name == "SOURCE_LOG_POS"
      then number >>= (λ n. done (record i { source_log_pos = to_unsigned 64 n }))
      else if name == "SOURCE_AUTO_POSITION"
      then number >>= (λ n. if below_one n then failed auto_position else done i)
      else failed unknown_option

  -- The loop over the options.
  unfoldable pub set_source_options :
      List ReplicationOption → SourceInfo → Outcome ControlError SourceInfo
  set_source_options [] i = done i
  set_source_options (o ∷ os) i = set_source_option o i >>= set_source_options os

  module _ {D : Type 0} (m : Metadata D) where
    abbrev known : Option SourceInfo → SourceInfo
    known none = m.new_replica_source_info
    known (some i) = i

    abbrev persisted : D × Bool → Control D
    persisted (d, true) c = (record c { database = d }, done tt)
    persisted (d, false) c = (record c { database = d }, failed persist_failed)

    abbrev persist : Outcome ControlError SourceInfo → Control D
    persist (done i) c = persisted (persist_replication_configuration m i c.database) c
    persist (failed err) c = (c, failed err)
    persist panicked c = (c, panicked)

    -- SetReplicationSourceOptions
    unfoldable pub set_replication_source_options : List ReplicationOption → Control D
    set_replication_source_options os c =
        persist (set_source_options os (known (load_replication_configuration m c.database))) c

module _ (upper lower : String → String) where
  abbrev filters_set :
      Outcome FilterError FilterConfiguration → Outcome ControlError FilterConfiguration
  filters_set (done fc) = done fc
  filters_set (failed err) = failed (filter_failed err)
  filters_set panicked = panicked

  -- One option of the filters.
  unfoldable pub set_filter_option :
      ReplicationOption → FilterConfiguration → Outcome ControlError FilterConfiguration
  set_filter_option o fc =
      let name = upper o.name in
      let tables = get_option_value_as_table_names o in
      let databases = get_option_value_as_database_names o in
      if name == "REPLICATE_DO_DB"
      then databases >>= (λ ns. done (set_do_databases lower ns fc))
      else if name == "REPLICATE_IGNORE_DB"
      then databases >>= (λ ns. done (set_ignore_databases lower ns fc))
      else if name == "REPLICATE_DO_TABLE"
      then tables >>= (λ ts. filters_set (set_do_tables lower ts fc))
      else if name == "REPLICATE_IGNORE_TABLE"
      then tables >>= (λ ts. filters_set (set_ignore_tables lower ts fc))
      else failed unknown_option

  module _ {D : Type 0} where
    abbrev pub filters_kept :
        Controller D
        → Outcome ControlError FilterConfiguration
        → Controller D × Outcome ControlError (Unit {0})
    filters_kept c (done fc) = (record c { heap = put_id c.filters fc c.heap }, done tt)
    filters_kept c (failed err) = (c, failed err)
    filters_kept c panicked = (c, panicked)

    abbrev pub apply_filter_option : ReplicationOption → Option FilterConfiguration → Control D
    apply_filter_option o none c = (c, panicked)
    apply_filter_option o (some fc) c = filters_kept c (set_filter_option o fc)

    abbrev pub and_then :
        Control D
        → Controller D × Outcome ControlError (Unit {0})
        → Controller D × Outcome ControlError (Unit {0})
    and_then k (c, done _) = k c
    and_then k (c, failed err) = (c, failed err)
    and_then k (c, panicked) = (c, panicked)

    -- SetReplicationFilterOptions: what the options before a wrong one have set stays.
    unfoldable pub set_replication_filter_options : List ReplicationOption → Control D
    set_replication_filter_options [] c = (c, done tt)
    set_replication_filter_options (o ∷ os) c =
        and_then (set_replication_filter_options os)
          (apply_filter_option o (find_id c.filters c.heap) c)
