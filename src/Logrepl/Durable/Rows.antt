-- ===== src/Logrepl/Durable/Rows.antt =====
-- A tuple does not change the written position.
use myduckserver.Base.{
  ℕ, Bool, Option, none, some, [], ◌∷◌, Outcome, done, failed, panicked, ◌≡◌, refl, arith,
}
use myduckserver.Base.Actions.{Nothing}
use myduckserver.Delta.{RowEventType}
use myduckserver.Delta.Statements.{TableIdentifier}
use myduckserver.Delta.Flush.{Appender}
use myduckserver.Delta.Flush.Controller.{Tables, get_delta_appender}
use myduckserver.Logrepl.{Relation, LogError, State, find_id, Tuple, unknown_relation}
use myduckserver.Logrepl.Rows.{
  Writer, append_row, append_tuple, count_appended, with_appender, table_of, schema_of,
}
use myduckserver.Logrepl.Messages.{changed, receive}

count_appended-lsn :
    {B : Type 0} (x : Writer B) (action event : RowEventType) (a : Appender B) (s : State B)
    (t : TableIdentifier) (o : B × Outcome LogError ℕ)
    → (count_appended x action event a s t o).0.last_written_lsn ≡ s.last_written_lsn
count_appended-lsn x action event a s t (b, done n) = refl
count_appended-lsn x action event a s t (b, failed e) = refl
count_appended-lsn x action event a s t (b, panicked) = refl

append_tuple-lsn :
    {B : Type 0} (x : Writer B) (rel : Relation) (tuple : Tuple) (action event : RowEventType)
    (only_keys : Bool) (a : Appender B) (s : State B)
    → (append_tuple x rel tuple action event only_keys a s).0.last_written_lsn ≡ s.last_written_lsn
unfolding append_tuple
append_tuple-lsn x rel [] action event only_keys a s = ground arith
append_tuple-lsn x rel (t ∷ ts) action event only_keys a s =
    count_appended-lsn x action event a s (table_of rel) _

with_appender-lsn :
    {B : Type 0} (x : Writer B) (f : Appender B → State B → State B × Outcome LogError Nothing)
    (s : State B) (o : Outcome LogError (Appender B × Tables B))
    → ((a : Appender B) (s : State B) → (f a s).0.last_written_lsn ≡ s.last_written_lsn)
    → (with_appender x f s o).0.last_written_lsn ≡ s.last_written_lsn
with_appender-lsn x f s (done (a, ts)) k = k a (record s { deltas = ts })
with_appender-lsn x f s (failed e) k = refl
with_appender-lsn x f s panicked k = refl

pub append_row-lsn :
    {B : Type 0} (x : Writer B) (id : ℕ) (tuple : Tuple) (action event : RowEventType)
    (only_keys : Bool) (s : State B)
    → (append_row x id tuple action event only_keys s).0.last_written_lsn ≡ s.last_written_lsn
unfolding append_row
append_row-lsn {B = B} x id tuple action event only_keys s = found (find_id id s.relations)
  where
    found :
        (o : Option Relation)
        → (elim o as (λ o. State B × Outcome LogError Nothing) [
          | none ↦ (s, failed unknown_relation)
          | some rel ↦
              with_appender x
                (append_tuple x rel tuple action event only_keys)
                s
                (get_delta_appender x.new_builder (table_of rel) (schema_of x id s) s.deltas)
        ]).0.last_written_lsn
          ≡ s.last_written_lsn
    found none = refl
    found (some rel) =
        with_appender-lsn x (append_tuple x rel tuple action event only_keys) s
          (get_delta_appender x.new_builder (table_of rel) (schema_of x id s) s.deltas)
          (append_tuple-lsn x rel tuple action event only_keys)

pub changed-lsn : {B : Type 0} (s : State B) → (changed s).last_written_lsn ≡ s.last_written_lsn
unfolding changed
changed-lsn s = refl

pub receive-lsn :
    {B : Type 0} (wal_end : ℕ) (s : State B)
    → (receive wal_end s).last_written_lsn ≡ s.last_written_lsn
unfolding receive
receive-lsn wal_end s = refl
