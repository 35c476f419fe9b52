-- ===== src/Applier/Events.antt =====
-- processBinlogEvent of binlogreplication/binlog_replica_applier.go, a function for each larger case.
use Prim.Native.Nat.{bit_and}
use Prim.Native.String.{String}
use text.Mathlib.Text.{◌==◌ as same}
use myduckserver.Base.{
  ℕ, ◌==◌, ltb, Bool, true, false, ◌||◌, if◌then◌else◌, Option, none, some, [], get_elem?, Outcome,
  done, failed, panicked,
}
use myduckserver.Base.Actions.{Nothing, ◌>>=◌, ◌>>◌, pure, fail, panic, modify}
use myduckserver.Base.Maps.{put_id}
use myduckserver.Charset.{Bytes}
use myduckserver.Delta.{RowEventType}
use myduckserver.Delta.Flush.{Engine}
use myduckserver.Applier.{
  Gtid, Positions, BinlogFormat, TableMap, BinlogRows, BinlogQuery, parse_failed, uuid_failed,
  checksum_failed, unsupported_flags, applying_failed, unknown_event_type, ApplyError, Applier,
  Applying, Apply, set_applier, set_status, set_database, in_database, add_uint64,
}
use myduckserver.Applier.Server.{Server}
use myduckserver.Applier.Commit.{record_error, extend_or_commit_batch_txn}
use myduckserver.Applier.Query.{execute_query_with_engine}
use myduckserver.Applier.Rows.{Rower}
use myduckserver.Applier.RowEvents.{unsupported, process_row_event}
use myduckserver.Applier.Variables.{QueryVar, parse_query_event_vars, Vars}

-- The tests of the switch, in its order.
pub data EventKind : Type 0 where
  rand_event xid_event query_event rotate_event format_description_event : EventKind
  previous_gtids_event gtid_event table_map_event : EventKind
  rows_event : RowEventType → EventKind
  heartbeat_event stop_event other_event : EventKind

-- mysql.BinlogEvent of Vitess. What is none or false is an error.
pub record BinlogReader (E : Type 0) : Type 0 where
  pub kind : E → EventKind
  pub server_id : E → ℕ
  pub bytes : E → Bytes
  pub strip_checksum : BinlogFormat → E → E × Bool
  pub format : E → Option BinlogFormat
  pub query : BinlogFormat → E → Option BinlogQuery
  pub previous_gtids : BinlogFormat → E → Bool
  pub gtid : BinlogFormat → E → Option (Gtid × Bool)
  pub table_id : BinlogFormat → E → ℕ
  pub table_map : BinlogFormat → E → Option TableMap
  pub rows : BinlogFormat → E → TableMap → Option BinlogRows
  -- the constants: the codes of a Query event's variables, and the bits of its flags
  pub query_var : ℕ → QueryVar
  pub auto_is_null : ℕ
  pub not_autocommit : ℕ
  pub no_foreign_key_checks : ℕ
  pub relaxed_unique_checks : ℕ

abbrev pub is_format_description : EventKind → Bool
is_format_description format_description_event = true
is_format_description _ = false

-- The numbers 0 and 1, or 1 and 0, for a flag that is set or not.
abbrev set_when : ℕ → ℕ → ℕ
set_when mask flags = if ltb 0 (bit_and flags mask) then 1 else 0

abbrev unset_when : ℕ → ℕ → ℕ
unset_when mask flags = if ltb 0 (bit_and flags mask) then 0 else 1

abbrev pub next_statement : {B P : Type 0} → Applier B P → Applier B P
next_statement a = record a { in_txn_stmt_id = add_uint64 a.in_txn_stmt_id 1 }

-- The flags behind the rows of an event.
unfoldable pub rows_applied : {B P : Type 0} → Applier B P → Applier B P
rows_applied a = next_statement (record a { dirty_txn = true; dirty_stream = true })

-- The GTID of a transaction that begins.
unfoldable pub announce : {B P : Type 0} → Gtid → Applier B P → Applier B P
announce g a = record a { previous_gtid = a.current_gtid; current_gtid = some g }

module _ {D T P X V B R E : Type 0} (v : Server D T P V) (p : Positions P) (e : Engine D B R)
    (w : Rower B X V) (x : BinlogReader E) (no_index : Bool) where
  -- The code behind a format that is known; the format is a pointer.
  abbrev pub with_format : {A : Type 0} → (BinlogFormat → Apply D B P A) → Apply D B P A
  with_format k r = elim r.applier.format [ none ↦ (r, panicked) | some f ↦ k f r ]

  -- The checksum goes, where the format says that there is one; an error is recorded only.
  unfoldable pub strip : ℕ → E → Apply D B P E
  strip now ev r = elim r.applier.format [
    | none ↦ (r, done ev)
    | some f ↦
        if is_format_description (x.kind ev)
        then (r, done ev)
        else if (x.strip_checksum f ev).1
        then (r, done (x.strip_checksum f ev).0)
        else (record_error v now checksum_failed >> pure (x.strip_checksum f ev).0) r
  ]

  -- The four session variables of a Query event.
  unfoldable pub set_variables : ℕ → D → D
  set_variables flags d =
      v.set_session_variable "unique_checks" (unset_when x.relaxed_unique_checks flags) (
        v.set_session_variable "foreign_key_checks" (unset_when x.no_foreign_key_checks flags) (
          v.set_session_variable "autocommit" (unset_when x.not_autocommit flags)
            (v.set_session_variable "sql_auto_is_null" (set_when x.auto_is_null flags) d)))

  -- An error of the statement is recorded, and not returned.
  abbrev pub recorded :
      ℕ → Applying D B P × Outcome ApplyError Nothing → Applying D B P × Outcome ApplyError Nothing
  recorded now (r, done _) = (r, done tt)
  recorded now (r, failed err) = record_error v now (applying_failed err) r
  recorded now (r, panicked) = (r, panicked)

  unfoldable pub execute_recorded : ℕ → BinlogQuery → Apply D B P Nothing
  execute_recorded now q r = recorded now (execute_query_with_engine v p e no_index now q r)

  abbrev pub execute_query : ℕ → BinlogQuery → Vars → Apply D B P Nothing
  execute_query now q (done (flags, mode)) r =
      (modify (set_database (set_variables flags))
          >> (execute_recorded now q >> modify (set_applier next_statement)))
        r
  execute_query now q (failed err) r = (r, failed err)
  execute_query now q panicked r = (r, panicked)

  -- A Query event
  unfoldable pub process_query : ℕ → E → Apply D B P Nothing
  process_query now ev = with_format λ f r. elim (x.query f ev) [
    | none ↦ (r, failed parse_failed)
    | some q ↦
        execute_query now q (parse_query_event_vars x.query_var f.header_length (x.bytes ev)) r
  ]

  -- A Rotate event, once there was a GTID
  unfoldable pub process_rotate : ℕ → Apply D B P Nothing
  process_rotate now r = elim r.applier.current_gtid [
    | none ↦ (r, done tt)
    | some g ↦ extend_or_commit_batch_txn v p e no_index now r
  ]

  unfoldable pub process_format_description : E → Apply D B P Nothing
  process_format_description ev r = elim (x.format ev) [
    | none ↦ (r, failed parse_failed)
    | some f ↦ (set_applier (λ a. record a { format = some f }) r, done tt)
  ]

  unfoldable pub process_previous_gtids : E → Apply D B P Nothing
  process_previous_gtids ev =
      with_format λ f. if x.previous_gtids f ev then pure tt else fail parse_failed

  -- persistSourceUuid: a configuration that is missing is a nil pointer.
  abbrev pub persisted : String → Bool → Apply D B P Nothing
  persisted uuid true r =
      (set_applier (λ a. record a { replication_source_uuid = uuid }) r, done tt)
  persisted uuid false r = (r, failed uuid_failed)

  unfoldable pub persist_source_uuid : Gtid → Apply D B P Nothing
  persist_source_uuid g r =
      if same r.applier.replication_source_uuid ""
      then (if v.has_configuration r.database
          then persisted (v.source_server g) (v.put_source_uuid (v.source_server g) r.database).1
              (in_database (v.put_source_uuid (v.source_server g)) r).0
          else (r, panicked))
      else (r, done tt)

  abbrev pub begin_query : BinlogQuery
  begin_query = record { database = ""; sql = "BEGIN" }

  abbrev pub begin_if : ℕ → Bool → Apply D B P Nothing
  begin_if now b = if b then execute_query_with_engine v p e no_index now begin_query else pure tt

  abbrev pub begin_txn : ℕ → Option (Gtid × Bool) → Apply D B P Nothing
  begin_txn now none = fail parse_failed
  begin_txn now (some (g, is_begin)) =
      modify (set_applier (announce g)) >> (begin_if now is_begin >> persist_source_uuid g)

  -- A GTID event
  unfoldable pub process_gtid : ℕ → E → Apply D B P Nothing
  process_gtid now ev = with_format λ f. begin_txn now (x.gtid f ev)

  -- A TableMap event; the special id frees the table maps.
  unfoldable pub note_table_map : ℕ → ℕ → TableMap → Apply D B P Nothing
  note_table_map now id t =
      if id == 16777215
      then modify (set_applier (λ a. record a { table_maps_by_id = [] }))
      else (if unsupported t.flags == 0 then pure tt else record_error v now unsupported_flags)
        >> modify
            (set_applier (λ a. record a { table_maps_by_id = put_id id t a.table_maps_by_id }))

  unfoldable pub process_table_map : ℕ → E → Apply D B P Nothing
  process_table_map now ev = with_format λ f. elim (x.table_map f ev) [
    | none ↦ fail parse_failed
    | some t ↦ note_table_map now (x.table_id f ev) t
  ]

  unfoldable pub process_rows_event : ℕ → RowEventType → E → Apply D B P Nothing
  process_rows_event now event ev = with_format λ f.
      process_row_event v w now event (x.table_id f ev) (x.rows f ev)
      >> modify (set_applier rows_applied)

  -- The type of an event that no test knows: a checkpoint and a GTID list of MariaDB are no error.
  unfoldable pub process_other : E → Apply D B P Nothing
  process_other ev = elim (get_elem? (x.bytes ev) 4) [
    | none ↦ panic
    | some b ↦ if (b == 161) || (b == 163) then pure tt else fail (unknown_event_type b)
  ]

  -- The switch.
  unfoldable pub process_kind : ℕ → EventKind → E → Apply D B P Nothing
  process_kind now rand_event ev = pure tt
  process_kind now xid_event ev = extend_or_commit_batch_txn v p e no_index now
  process_kind now query_event ev = process_query now ev
  process_kind now rotate_event ev = process_rotate now
  process_kind now format_description_event ev = process_format_description ev
  process_kind now previous_gtids_event ev = process_previous_gtids ev
  process_kind now gtid_event ev = process_gtid now ev
  process_kind now table_map_event ev = process_table_map now ev
  process_kind now (rows_event event) ev = process_rows_event now event ev
  process_kind now heartbeat_event ev = pure tt
  process_kind now stop_event ev = pure tt
  process_kind now other_event ev = process_other ev

  -- processBinlogEvent
  unfoldable pub process_binlog_event : ℕ → E → Apply D B P Nothing
  process_binlog_event now ev =
      modify (set_status (λ s. record s { source_server_id = x.server_id ev }))
      >> (strip now ev >>= λ stripped. process_kind now (x.kind stripped) stripped)
