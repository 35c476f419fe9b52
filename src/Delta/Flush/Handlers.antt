-- ===== src/Delta/Flush/Handlers.antt =====
-- The five handlers of updateTable, and updateTable.
use myduckserver.Base.{Bool, true, false, Option, some, List, []}
use myduckserver.Delta.{
  no_counts, Plan, insert_only, delete_only, zero_delete, without_index, general_case, choose_plan,
}
use myduckserver.Delta.Statements.{
  Column, TableIdentifier, num_augmented_fields, get_primary_key_indices,
}
use myduckserver.Delta.Statements.Sql.{
  insert_from_view, delete_by_view, upsert_from_view, create_delta, insert_from_delta,
  delete_by_delta, where_deleted, drop_delta,
}
use myduckserver.Delta.Flush.{
  Engine, Appender, Work, FlushStats, FlushError, no_active_transaction, add_delta_size,
  add_insertions, add_deletions, Result, and_then, with_statement, two_statements,
}

module _ {D B R : Type 0} (e : Engine D B R) where
  unfoldable pub handle_insert_only : TableIdentifier → List Column → Work D B → Result e
  handle_insert_only t base =
      with_statement e t num_augmented_fields [] (insert_from_view t base)
        (λ n s. add_delta_size n (add_insertions n s))

  unfoldable pub handle_delete_only : TableIdentifier → List Column → Work D B → Result e
  handle_delete_only t base =
      with_statement e t 0 (get_primary_key_indices base) (delete_by_view t base)
        (λ n s. add_delta_size n (add_deletions n s))

  unfoldable pub handle_zero_delete : TableIdentifier → List Column → Work D B → Result e
  handle_zero_delete t base =
      with_statement e t 0 [] (upsert_from_view t base)
        (λ n s. add_delta_size n (add_insertions n s))

  unfoldable pub materialize_condensed_delta : TableIdentifier → List Column → Work D B → Result e
  materialize_condensed_delta t base = with_statement e t 0 [] (create_delta base) add_delta_size

  unfoldable pub handle_general_case : TableIdentifier → List Column → Work D B → Result e
  handle_general_case t base w = and_then e (materialize_condensed_delta t base w) (
      two_statements e (insert_from_delta "INSERT OR REPLACE INTO " t) add_insertions
        (delete_by_delta t base where_deleted) add_deletions drop_delta)

  unfoldable pub handle_without_index : TableIdentifier → List Column → Work D B → Result e
  handle_without_index t base w = and_then e (materialize_condensed_delta t base w) (
      two_statements e (delete_by_delta t base "") add_deletions
        (insert_from_delta "INSERT INTO " t) add_insertions drop_delta)

  unfoldable pub run_plan : Plan → TableIdentifier → List Column → Work D B → Result e
  run_plan insert_only = handle_insert_only
  run_plan delete_only = handle_delete_only
  run_plan zero_delete = handle_zero_delete
  run_plan without_index = handle_without_index
  run_plan general_case = handle_general_case

  abbrev pub Updated : Type 0
  Updated = Appender B × D × FlushStats × Option FlushError

  -- The deferred ResetCounters, behind a handler's outcome.
  abbrev settled : Appender B → Result e → Updated
  settled a (w, error) =
      (record a { builder = w.builder; counters = no_counts }, w.database, w.stats, error)

  -- updateTable; `tx` is whether there is a transaction, and `no_index` the configuration.
  unfoldable pub update_table :
      Bool → Bool → TableIdentifier → Appender B → D → FlushStats → Updated
  unfolding choose_plan no_counts
  update_table no_index false t a d s = (a, d, s, some no_active_transaction)
  update_table no_index true t a d s = settled a (
      run_plan (choose_plan no_index a.counters) t a.base
        (record { database = d; builder = a.builder; stats = s }))
