-- ===== src/Samples/Flushes.antt =====
-- A database that counts its registered views, builders that count their rows, and a table of each.
use myduckserver.Base.{
  Outcome, done, ℕ, suc, ◌-◌, true, false, none, some, List, [], ◌∷◌, All, ◌≡◌, refl, arith,
}
use myduckserver.Delta.{
  update_row_event, insert_row_event, ddl_stmt, dml_stmt, Counters, no_counts, choose_plan,
}
use myduckserver.Delta.Plans.{
  count_events, deleted_rows, inserted_rows, deletes, inserts, choose_plan-covers,
}
use myduckserver.Delta.Statements.{Column, TableIdentifier}
use myduckserver.Delta.Flush.{
  FlushError, Appender, Engine, no_stats, no_active_transaction, with_statement, with_view,
  run_statement, close_view, deferred,
}
use myduckserver.Delta.Flush.Handlers.{run_plan, handle_insert_only, update_table}
use myduckserver.Delta.Flush.Controller.{
  get_delta_appender, Tables, flush, flush_tables, update_rows, grow_appender,
}
use myduckserver.Delta.Flush.Rows.{IsSettled, IsEmpty, flush-IsEmpty}
use myduckserver.Delta.Flush.Reasons.{flush_no_tx}

abbrev engine : Engine ℕ ℕ ℕ
engine = record {
  exec = λ sql d. (d, some 1);
  register = λ v r d. (suc d, true);
  release = λ v d. d - 1;
  hash = λ s. s;
  row_count = λ b. b;
  build = λ b. (b, 0);
  grow = λ n b. b;
  drop_fields = λ n r. r;
  select_fields = λ is r. r;
}

abbrev id_column : Column
id_column = record { name = "id"; is_timestamp = false; primary_key = true }

abbrev text_column : Column
text_column = record { name = "note"; is_timestamp = false; primary_key = false }

abbrev two_columns : List Column
two_columns = text_column ∷ id_column ∷ []

-- One insertion of three rows.
abbrev inserted : Counters
inserted = record {
  event_delete = 0;
  event_insert = 1;
  event_update = 0;
  action_delete = 0;
  action_insert = 3;
}

abbrev pub tables : Tables ℕ
tables =
    (
      record { db_name = "shop"; table_name = "orders" },
      record { base = two_columns; builder = 3; counters = inserted },
    )
    ∷ []

tables-IsSettled : All (IsSettled engine) tables
tables-IsSettled = (λ e. absurd (omega arith), tt)

insert_done : (flush engine true true dml_stmt tables 7).error ≡ none
unfolding flush flush_tables update_rows update_table choose_plan run_plan handle_insert_only
    with_statement with_view run_statement close_view deferred grow_appender
insert_done = refl

ddl_done : (flush engine true true ddl_stmt tables 7).error ≡ none
unfolding flush flush_tables update_rows update_table choose_plan run_plan handle_insert_only
    with_statement with_view run_statement close_view deferred grow_appender
ddl_done = refl

flush-IsEmpty_example : All (IsEmpty engine) (flush engine true true dml_stmt tables 7).tables
flush-IsEmpty_example =
    flush-IsEmpty engine (λ b. refl) (λ n b. refl) true true dml_stmt tables 7 tables-IsSettled
      insert_done

flush_no_tx_example :
    flush engine true false dml_stmt tables 7
    ≡ record { tables = tables; database = 7; stats = no_stats; error = some no_active_transaction }
flush_no_tx_example = flush_no_tx engine true dml_stmt tables 7 refl

choose_plan-covers_example :
    (deletes (
          choose_plan true
            (count_events ((insert_row_event, 2) ∷ (update_row_event, 1) ∷ []) no_counts))
        ≡ false
      → deleted_rows ((insert_row_event, 2) ∷ (update_row_event, 1) ∷ []) ≡ 0)
    × (inserts (
            choose_plan true
              (count_events ((insert_row_event, 2) ∷ (update_row_event, 1) ∷ []) no_counts))
          ≡ false
        → inserted_rows ((insert_row_event, 2) ∷ (update_row_event, 1) ∷ []) ≡ 0)
choose_plan-covers_example =
    choose_plan-covers true ((insert_row_event, 2) ∷ (update_row_event, 1) ∷ [])

-- An empty builder for every schema.
abbrev new_builder : List Column → Outcome FlushError ℕ
new_builder schema = done 0

abbrev orders_table : TableIdentifier
orders_table = record { db_name = "shop"; table_name = "orders" }

abbrev empty_appender : Appender ℕ
empty_appender = record { base = two_columns; builder = 0; counters = no_counts }

first_call :
    get_delta_appender new_builder orders_table two_columns []
    ≡ done (empty_appender, (orders_table, empty_appender) ∷ [])
unfolding get_delta_appender
first_call = refl
