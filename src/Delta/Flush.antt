-- ===== src/Delta/Flush.antt =====
-- DeltaController of delta/controller.go: how the buffered changes of all tables reach DuckDB.
--
-- DuckDB, the Arrow library and the hash of Go are the parameter `Engine`. The tables of the controller
-- are a list of pairs; Go visits a map in any order, and what is shown holds of every list. A deferred
-- call runs where its function returns. Logging is left out.
pub mod Handlers
pub mod Controller
pub mod Outcomes
pub mod Rows
pub mod Observed
pub mod Views
pub mod Reasons
pub mod Lookup
pub mod Growth
use Prim.Native.String.{String}
use myduckserver.Base.{
  ℕ, zero, suc, ◌+◌, ◌-◌, ◌/◌, ◌^◌, Bool, true, false, ltb, ◌==◌, if◌then◌else◌, Option, none, some,
  List, [], ◌∷◌,
}
use myduckserver.Delta.{
  FlushReason, ddl_stmt, Counters, no_counts, Plan, insert_only, delete_only, zero_delete,
  without_index, general_case, choose_plan,
}
use myduckserver.Delta.Statements.{
  ◌⋯◌, Column, TableIdentifier, num_augmented_fields, get_primary_key_indices,
}
use myduckserver.Delta.Statements.Sql

-- A database `D`, an Arrow record builder `B` and a record `R`.
pub record Engine (D B R : Type 0) : Type 0 where
  -- ExecContext and RowsAffected; no number where one of them fails
  pub exec : String → D → D × Option ℕ
  -- NewArrowFromConn, NewRecordReader and RegisterView: whether the view stands
  pub register : String → R → D → D × Bool
  -- the release function of RegisterView
  pub release : String → D → D
  -- the hexadecimal maphash of a text
  pub hash : String → String
  -- RowCount, Build (the record, and the builder behind it), Grow
  pub row_count : B → ℕ
  pub build : B → R × B
  pub grow : ℕ → B → B
  -- the columns behind the first ones, and those at the indices
  pub drop_fields : ℕ → R → R
  pub select_fields : List ℕ → R → R

pub record FlushStats : Type 0 where
  pub delta_size : ℕ
  pub insertions : ℕ
  pub deletions : ℕ

unfoldable pub no_stats : FlushStats
no_stats = record { delta_size = 0; insertions = 0; deletions = 0 }

abbrev pub add_delta_size : ℕ → FlushStats → FlushStats
add_delta_size n s = record s { delta_size = s.delta_size + n }

abbrev pub add_insertions : ℕ → FlushStats → FlushStats
add_insertions n s = record s { insertions = s.insertions + n }

abbrev pub add_deletions : ℕ → FlushStats → FlushStats
add_deletions n s = record s { deletions = s.deletions + n }

pub data FlushError : Type 0 where
  no_active_transaction view_failed statement_failed : FlushError

pub record Appender (B : Type 0) : Type 0 where
  pub base : List Column
  pub builder : B
  pub counters : Counters

-- What the handlers change.
pub record Work (D B : Type 0) : Type 0 where
  pub database : D
  pub builder : B
  pub stats : FlushStats

-- bits.Len64, with fuel
unfoldable pub len64 : ℕ → ℕ → ℕ
len64 zero n = 0
len64 (suc fuel) n = let rest = len64 fuel (n / 2) in if n == 0 then 0 else suc rest

-- 1 << bits.Len64(uint64(deltaRowCount)-1); a row count does not come near 2^63.
unfoldable pub next_power : ℕ → ℕ
unfolding len64
next_power n = 2 ^ len64 n (n - 1)

-- What a controller is after a flush, with the statistics and the error that Flush returns.
pub record Flushed (D B : Type 0) : Type 0 where
  pub tables : List (TableIdentifier × Appender B)
  pub database : D
  pub stats : FlushStats
  pub error : Option FlushError

module _ {D B R : Type 0} (e : Engine D B R) where
  abbrev pub Result : Type 0
  Result = Work D B × Option FlushError

  -- `if err != nil { return err }` between two steps
  abbrev pub and_then : Result → (Work D B → Result) → Result
  and_then (w, none) f = f w
  and_then (w, some error) f = (w, some error)

  -- tx.ExecContext, its error, and the statistics that the number of rows goes to
  abbrev pub counted : (ℕ → FlushStats → FlushStats) → Work D B → D × Option ℕ → Result
  counted add w (d, none) = (record w { database = d }, some statement_failed)
  counted add w (d, some n) = (record w { database = d; stats = add n w.stats }, none)

  unfoldable pub run_statement : String → (ℕ → FlushStats → FlushStats) → Work D B → Result
  run_statement sql add w = counted add w (e.exec sql w.database)

  -- A deferred statement, whose result nobody reads.
  unfoldable pub deferred : String → Result → Result
  deferred sql (w, error) = (record w { database = (e.exec sql w.database).0 }, error)

  unfoldable pub view_name : TableIdentifier → String
  view_name t = "__sys_view_arrow_delta_" ⋯ e.hash (t.db_name ⋯ "\0" ⋯ t.table_name) ⋯ "__"

  -- The projection of prepareArrowView.
  unfoldable pub project : ℕ → List ℕ → R → R
  project zero [] r = r
  project zero (i ∷ is) r = e.select_fields (i ∷ is) r
  project (suc n) is r = e.drop_fields (suc n) r

  -- The function that closes the view, behind a handler's body.
  unfoldable pub close_view : String → Result → Result
  unfolding deferred
  close_view view (w, error) =
      let d = (e.exec (Sql.drop_view view) w.database).0 in
      (record w { database = e.release view d }, error)

  abbrev pub viewed : String → B → (Work D B → Result) → Work D B → D × Bool → Result
  viewed view b body w (d, true) = close_view view (body (record w { database = d; builder = b }))
  viewed view b body w (d, false) = (record w { database = d; builder = b }, some view_failed)

  -- prepareArrowView, the handler's body, and the deferred release of the view
  unfoldable pub with_view :
      TableIdentifier → ℕ → List ℕ → (String → Work D B → Result) → Work D B → Result
  unfolding close_view view_name project
  with_view t offset indices body w =
      let view = view_name t in
      let built = e.build w.builder in
      viewed view built.1 (body view) w
        (e.register view (project offset indices built.0) w.database)

  -- The handlers with one statement, which the view's name completes.
  unfoldable pub with_statement :
      TableIdentifier
      → ℕ
      → List ℕ
      → (String → String)
      → (ℕ → FlushStats → FlushStats)
      → Work D B
      → Result
  unfolding with_view run_statement
  with_statement t offset indices sql add =
      with_view t offset indices (λ view. run_statement (sql view) add)

  -- The two statements on the temporary table, and the deferred statement behind them.
  unfoldable pub two_statements :
      String
      → (ℕ → FlushStats → FlushStats)
      → String
      → (ℕ → FlushStats → FlushStats)
      → String
      → Work D B
      → Result
  unfolding run_statement deferred
  two_statements sql add sql' add' last w =
      deferred last (and_then (run_statement sql add w) (run_statement sql' add'))
