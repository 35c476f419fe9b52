-- ===== src/Delta/Flush/Rows.antt =====
-- What Flush leaves of the buffered rows and their counters.
use myduckserver.Base.{ℕ, Bool, true, false, none, [], ◌∷◌, All, ◌≡◌, arith}
use myduckserver.Delta.{FlushReason, no_counts, choose_plan}
use myduckserver.Delta.Statements.{TableIdentifier}
use myduckserver.Delta.Flush.{Engine, Appender, FlushStats, no_stats, next_power}
use myduckserver.Delta.Flush.Handlers.{update_table}
use myduckserver.Delta.Flush.Outcomes.{run_plan-builder}
use myduckserver.Delta.Flush.Controller.{
  Tables, rows, grow_appender, update_rows, flush_tables, flush,
}

module _ {D B R : Type 0} (e : Engine D B R) where
  -- An appender without rows has no counts.
  abbrev pub IsSettled : TableIdentifier × Appender B → Type 0
  IsSettled (t, a) = rows e a ≡ 0 → a.counters ≡ no_counts

  -- An appender with neither rows nor counts.
  abbrev pub IsEmpty : TableIdentifier × Appender B → Type 0
  IsEmpty (t, a) = (rows e a ≡ 0) × (a.counters ≡ no_counts)

  module _ (build-row_count : (b : B) → e.row_count (e.build b).1 ≡ 0)
      (grow-row_count : (n : ℕ) (b : B) → e.row_count (e.grow n b) ≡ e.row_count b) where
    update_table-IsEmpty :
        (no_index : Bool) (t : TableIdentifier) (a : Appender B) (d : D) (s : FlushStats)
        → IsEmpty (t, (update_table e no_index true t a d s).0)
    unfolding update_table
    update_table-IsEmpty no_index t a d s = ground (
      arith,
      run_plan-builder e (choose_plan no_index a.counters) t a.base
          (record { database = d; builder = a.builder; stats = s }),
      build-row_count a.builder,
    )

    update_rows-IsEmpty :
        (no_index tx : Bool) (t : TableIdentifier) (a : Appender B) (d : D) (s : FlushStats)
        → IsSettled (t, a)
        → (update_rows e no_index tx t a d s).3 ≡ none
        → IsEmpty (t, (update_rows e no_index tx t a d s).0)
    unfolding update_rows update_table
    update_rows-IsEmpty no_index true t a d s k h =
        ground (arith, update_table-IsEmpty no_index t a d s)
    update_rows-IsEmpty no_index false t a d s k h = ground arith

    grow_appender-IsEmpty :
        (n : ℕ) (t : TableIdentifier) (a : Appender B)
        → IsEmpty (t, a)
        → IsEmpty (t, grow_appender e n a)
    unfolding grow_appender
    grow_appender-IsEmpty n t a h = ground (arith, grow-row_count (next_power n) a.builder)

    flush_tables-IsEmpty :
        (no_index tx : Bool) (reason : FlushReason) (ts : Tables B) (d : D) (s : FlushStats)
        → All IsSettled ts
        → (flush_tables e no_index tx reason ts d s).error ≡ none
        → All IsEmpty (flush_tables e no_index tx reason ts d s).tables
    unfolding flush_tables
    flush_tables-IsEmpty no_index tx reason [] d s k h = tt
    flush_tables-IsEmpty no_index tx reason ((t, a) ∷ ts) d s (k, ks) h =
        let u = update_rows e no_index tx t a d s in
        ground (
          arith,
          update_rows-IsEmpty no_index tx t a d s k,
          flush_tables-IsEmpty no_index tx reason ts u.1 u.2 ks,
          grow_appender-IsEmpty (rows e a) t u.0,
        )

    -- Where Build empties the builder and Grow keeps its rows: if no appender without rows has counts
    -- before a flush, then after one that returns no error no appender of the controller has a row or a
    -- count, whatever the statements did.
    pub flush-IsEmpty :
        (no_index tx : Bool) (reason : FlushReason) (ts : Tables B) (d : D)
        → All IsSettled ts
        → (flush e no_index tx reason ts d).error ≡ none
        → All IsEmpty (flush e no_index tx reason ts d).tables
    unfolding flush
    flush-IsEmpty no_index tx reason ts d k h =
        flush_tables-IsEmpty no_index tx reason ts d no_stats k h
