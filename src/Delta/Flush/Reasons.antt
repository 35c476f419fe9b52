-- ===== src/Delta/Flush/Reasons.antt =====
-- What Flush does without a transaction, and for a DDL statement.
use myduckserver.Base.{Bool, false, ◌||◌, ltb, if◌then◌else◌, none, some, [], ◌∷◌, ◌≡◌, refl, arith}
use myduckserver.Delta.{FlushReason, ddl_stmt}
use myduckserver.Delta.Flush.{Engine, FlushStats, no_active_transaction, no_stats}
use myduckserver.Delta.Flush.Handlers.{update_table}
use myduckserver.Delta.Flush.Controller.{
  Tables, rows, is_ddl, grow_appender, update_rows, flush_tables, flush,
}

module _ {D B R : Type 0} (e : Engine D B R) where
  -- A table has a buffered row.
  abbrev pub has_rows : Tables B → Bool
  has_rows [] = false
  has_rows ((t, a) ∷ ts) = ltb 0 (rows e a) || has_rows ts

  flush_tables_no_tx :
      (no_index : Bool) (reason : FlushReason) (ts : Tables B) (d : D) (s : FlushStats)
      → is_ddl reason ≡ false
      → flush_tables e no_index false reason ts d s ≡ record {
        tables = ts;
        database = d;
        stats = s;
        error = if has_rows ts then some no_active_transaction else none;
      }
  unfolding flush_tables update_rows update_table grow_appender
  flush_tables_no_tx no_index reason [] d s h = refl
  flush_tables_no_tx no_index reason ((t, a) ∷ ts) d s h =
      ground (arith, flush_tables_no_tx no_index reason ts d s h)

  -- Without a transaction, and for any reason but a DDL statement, a flush runs no statement and keeps
  -- every table with its rows and counts; it fails just where some table has a row.
  pub flush_no_tx :
      (no_index : Bool) (reason : FlushReason) (ts : Tables B) (d : D)
      → is_ddl reason ≡ false
      → flush e no_index false reason ts d ≡ record {
        tables = ts;
        database = d;
        stats = no_stats;
        error = if has_rows ts then some no_active_transaction else none;
      }
  unfolding flush
  flush_no_tx no_index reason ts d h = flush_tables_no_tx no_index reason ts d no_stats h

  flush_tables_ddl :
      (no_index tx : Bool) (ts : Tables B) (d : D) (s : FlushStats)
      → (flush_tables e no_index tx ddl_stmt ts d s).error ≡ none
      → (flush_tables e no_index tx ddl_stmt ts d s).tables ≡ []
  unfolding flush_tables
  flush_tables_ddl no_index tx [] d s h = refl
  flush_tables_ddl no_index tx ((t, a) ∷ ts) d s h =
      let u = update_rows e no_index tx t a d s in
      ground (arith, flush_tables_ddl no_index tx ts u.1 u.2)

  -- After a flush for a DDL statement that returns no error, the controller has no table left.
  pub flush_ddl :
      (no_index tx : Bool) (ts : Tables B) (d : D)
      → (flush e no_index tx ddl_stmt ts d).error ≡ none
      → (flush e no_index tx ddl_stmt ts d).tables ≡ []
  unfolding flush
  flush_ddl no_index tx ts d h = flush_tables_ddl no_index tx ts d no_stats h
