-- ===== src/Delta/Flush/Controller.antt =====
-- The controller's operations: NewController, GetDeltaAppender, Flush and Close. Its mutex makes each of
-- them one step. GetDeltaAppender gives the appender as a value: the rows and counts that a caller adds
-- behind its pointer are those of the table's appender in the next operation.
use text.Mathlib.Text.{◌==◌ as same}
use myduckserver.Base.{
  ℕ, Bool, true, false, ◌&&◌, ltb, if◌then◌else◌, Option, none, some, List, [], ◌∷◌, Outcome, done,
  ◌++◌, ◌>>=◌,
}
use myduckserver.Delta.{FlushReason, ddl_stmt, no_counts}
use myduckserver.Delta.Statements.{Column, TableIdentifier, augmented_schema}
use myduckserver.Delta.Flush.{
  Engine, Appender, FlushStats, no_stats, FlushError, Flushed, next_power,
}
use myduckserver.Delta.Flush.Handlers.{Updated, update_table}

abbrev pub Tables : Type 0 → Type 0
Tables B = List (TableIdentifier × Appender B)

abbrev pub same_table : TableIdentifier → TableIdentifier → Bool
same_table t u = same t.db_name u.db_name && same t.table_name u.table_name

-- The appender behind the pointer that GetDeltaAppender returned.
abbrev pub put_appender : {B : Type 0} → TableIdentifier → Appender B → Tables B → Tables B
put_appender t a [] = []
put_appender t a ((u, b) ∷ ts) =
    if same_table u t then (u, a) ∷ ts else (u, b) ∷ put_appender t a ts

abbrev pub find_table : {B : Type 0} → TableIdentifier → Tables B → Option (Appender B)
find_table t [] = none
find_table t ((u, a) ∷ ts) = if same_table u t then some a else find_table t ts

-- newDeltaAppender; `new_builder` is NewArrowAppender of the augmented schema.
unfoldable pub new_delta_appender :
    {B E : Type 0} → (List Column → Outcome E B) → List Column → Outcome E (Appender B)
unfolding no_counts augmented_schema
new_delta_appender new_builder base = new_builder (augmented_schema base) >>= λ b.
    done (record { base = base; builder = b; counters = no_counts })

-- GetDeltaAppender: the appender, and the tables behind the call.
unfoldable pub get_delta_appender :
    {B E : Type 0}
    → (List Column → Outcome E B)
    → TableIdentifier
    → List Column
    → Tables B
    → Outcome E (Appender B × Tables B)
unfolding new_delta_appender
get_delta_appender new_builder t base ts = elim (find_table t ts) [
  | some a ↦ done (a, ts)
  | none ↦ new_delta_appender new_builder base >>= λ a. done (a, ts ++ ((t, a) ∷ []))
]

abbrev pub is_ddl : FlushReason → Bool
is_ddl ddl_stmt = true
is_ddl _ = false

module _ {D B R : Type 0} (e : Engine D B R) where
  abbrev pub rows : Appender B → ℕ
  rows a = e.row_count a.builder

  -- Close releases the builders.
  unfoldable pub close_tables : Tables B → Tables B
  close_tables ts = []

  -- Grow behind a flush of `n` rows.
  unfoldable pub grow_appender : ℕ → Appender B → Appender B
  unfolding next_power
  grow_appender n a = if ltb 0 n then record a { builder = e.grow (next_power n) a.builder } else a

  -- What the loop of Flush does to one table.
  unfoldable pub update_rows :
      Bool → Bool → TableIdentifier → Appender B → D → FlushStats → Updated e
  unfolding update_table
  update_rows no_index tx t a d s =
      if ltb 0 (rows a) then update_table e no_index tx t a d s else (a, d, s, none)

  -- A table behind the loop's body: gone for a DDL statement, and else grown.
  abbrev keep : FlushReason → TableIdentifier → ℕ → Appender B → Tables B → Tables B
  keep reason t n a ts = if is_ddl reason then ts else (t, grow_appender n a) ∷ ts

  abbrev pub go_on : FlushReason → TableIdentifier → ℕ → Appender B → Flushed D B → Flushed D B
  go_on reason t n a f = record f { tables = keep reason t n a f.tables }

  abbrev pub stop :
      TableIdentifier → Appender B → Tables B → D → FlushStats → FlushError → Flushed D B
  stop t a ts d s error = record {
    tables = (t, a) ∷ ts;
    database = d;
    stats = s;
    error = some error;
  }

  unfoldable pub flush_tables : Bool → Bool → FlushReason → Tables B → D → FlushStats → Flushed D B
  unfolding update_rows grow_appender
  flush_tables no_index tx reason [] d s = record {
    tables = [];
    database = d;
    stats = s;
    error = none;
  }
  flush_tables no_index tx reason ((t, a) ∷ ts) d s =
      let (a', d', s', error) = update_rows no_index tx t a d s in
      let rest = flush_tables no_index tx reason ts d' s' in
      elim error [ none ↦ go_on reason t (rows a) a' rest | some err ↦ stop t a' ts d' s' err ]

  -- Flush
  unfoldable pub flush : Bool → Bool → FlushReason → Tables B → D → Flushed D B
  unfolding flush_tables no_stats
  flush no_index tx reason ts d = flush_tables no_index tx reason ts d no_stats
