-- ===== src/Delta.antt =====
-- delta/ and binlog/events.go: the buffer of replicated row changes and its flush into DuckDB. This
-- file has the events, the counters of an appender, and what one appender's counters make the flush do.
pub mod Statements
pub mod Flush
pub mod Plans
use Prim.Native.String.{String}
use myduckserver.Base.{ℕ, zero, suc, ◌+◌, Bool, true, false, not, ◌&&◌, ltb, ◌==◌, if◌then◌else◌}

-- The order is that of the numbers, which the SQL statements and the deduplication use.
pub data RowEventType : Type 0 where
  delete_row_event update_row_event insert_row_event : RowEventType

-- int(event)
unfoldable pub event_code : RowEventType → ℕ
event_code delete_row_event = 0
event_code update_row_event = 1
event_code insert_row_event = 2

pub data FlushReason : Type 0 where
  unknown ddl_stmt dml_stmt row_count_limit memory_limit time_tick query init on_close : FlushReason

-- String of FlushReason
unfoldable pub reason_name : FlushReason → String
reason_name unknown = "Unknown"
reason_name ddl_stmt = "DDLStmt"
reason_name dml_stmt = "DMLStmt"
reason_name row_count_limit = "RowCountLimit"
reason_name memory_limit = "MemoryLimit"
reason_name time_tick = "TimeTick"
reason_name query = "Query"
reason_name init = "Init"
reason_name on_close = "OnClose"

pub record Counters : Type 0 where
  pub event_delete : ℕ
  pub event_insert : ℕ
  pub event_update : ℕ
  pub action_delete : ℕ
  pub action_insert : ℕ

unfoldable pub no_counts : Counters
no_counts = record {
  event_delete = 0;
  event_insert = 0;
  event_update = 0;
  action_delete = 0;
  action_insert = 0;
}

unfoldable pub update_action_stats : RowEventType → ℕ → Counters → Counters
update_action_stats delete_row_event n c = record c { action_delete = c.action_delete + n }
update_action_stats insert_row_event n c = record c { action_insert = c.action_insert + n }
update_action_stats update_row_event n c = c

-- The number of rows is not used.
unfoldable pub observe_events : RowEventType → ℕ → Counters → Counters
observe_events delete_row_event n c = record c { event_delete = c.event_delete + 1 }
observe_events insert_row_event n c = record c { event_insert = c.event_insert + 1 }
observe_events update_row_event n c = record c { event_update = c.event_update + 1 }

-- What appendRowEvents of the replica applier counts for one event with `n` rows: the before images of
-- a delete or an update, the after images of an insert or an update, then the event.
unfoldable pub count_event : RowEventType → ℕ → Counters → Counters
unfolding update_action_stats observe_events
count_event delete_row_event n c =
    observe_events delete_row_event n (update_action_stats delete_row_event n c)
count_event insert_row_event n c =
    observe_events insert_row_event n (update_action_stats insert_row_event n c)
count_event update_row_event n c =
    observe_events update_row_event n
      (update_action_stats insert_row_event n (update_action_stats delete_row_event n c))

-- The handlers among which updateTable chooses.
pub data Plan : Type 0 where
  insert_only delete_only zero_delete without_index general_case : Plan

-- The switch of updateTable; `no_index` is configuration.IsReplicationWithoutIndex().
unfoldable pub choose_plan : Bool → Counters → Plan
choose_plan no_index c =
    let has_inserts = ltb 0 c.event_insert in
    let has_deletes = ltb 0 c.event_delete in
    let has_updates = ltb 0 c.event_update in
    if has_inserts && (not has_deletes && not has_updates)
    then insert_only
    else if has_deletes && (not has_inserts && not has_updates)
    then delete_only
    else if (c.action_delete == 0) && not no_index
    then zero_delete
    else if no_index
    then without_index
    else general_case
