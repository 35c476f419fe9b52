-- ===== src/Logrepl/Rows.antt =====
-- How a tuple reaches the delta buffer (append of pgserver/logrepl/replication.go), and truncate.
use myduckserver.Base.{
  ℕ, ◌+◌, Bool, true, false, not, ◌&&◌, if◌then◌else◌, Option, none, some, List, [], ◌∷◌, get_elem?,
  Outcome, done, failed, panicked,
}
use myduckserver.Base.Actions.{
  Action, Nothing, ◌>>=◌, ◌>>◌, pure, fail, panic, read, modify, attempt,
}
use myduckserver.Charset.{Bytes}
use myduckserver.Identifier.{connect_identifiers_ansi}
use myduckserver.Delta.{
  RowEventType, delete_row_event, update_row_event, event_code, update_action_stats, observe_events,
}
use myduckserver.Delta.Statements.{Column, TableIdentifier, ◌⋯◌}
use myduckserver.Delta.Flush.{Appender}
use myduckserver.Delta.Flush.Controller.{Tables, put_appender, get_delta_appender}
use myduckserver.Logrepl.{
  RelationColumn, Relation, TupleFormat, null, text, binary, other_format, TupleColumn, Tuple,
  LogError, unknown_relation, empty_tuple, decode_failed, unsupported_format, statement_failed,
  State, find_id, Step, on_database,
}
use myduckserver.Logrepl.Session.{Session}

-- The Arrow builders of a delta appender, with decodeToArrow of pgserver/logrepl/decode.go.
pub record Writer (B : Type 0) : Type 0 where
  -- NewArrowAppender of the augmented schema
  pub new_builder : List Column → Outcome LogError B
  -- The action, the sequence number and the statement's ordinal, with the four columns that stay empty.
  pub append_action : ℕ → ℕ → ℕ → B → B
  -- AppendNull on the field at an index
  pub append_null : ℕ → B → B
  -- decodeToArrow on the field at an index: the length that it returns, or an error
  pub decode_to_arrow : RelationColumn → ℕ → TupleFormat → Bytes → B → B × Option ℕ

module _ {B : Type 0} (x : Writer B) where
  abbrev decoded : B × Option ℕ → B × Outcome LogError ℕ
  decoded (b, none) = (b, failed decode_failed)
  decoded (b, some n) = (b, done n)

  -- The switch on the data type; tupleDataFormat keeps text and binary apart.
  unfoldable pub append_value : RelationColumn → ℕ → TupleColumn → Action B LogError ℕ
  append_value c i t b = elim t.format [
    | null ↦ (x.append_null i b, done 0)
    | text ↦ decoded (x.decode_to_arrow c i text t.content b)
    | binary ↦ decoded (x.decode_to_arrow c i binary t.content b)
    | other_format n ↦ (b, failed unsupported_format)
  ]

  abbrev append_at : RelationColumn → ℕ → Option TupleColumn → Action B LogError ℕ
  append_at c i none = panic
  append_at c i (some t) = append_value c i t

  -- The loop over the columns of the relation from index `i`, with `idx` and `size`.
  unfoldable pub append_columns :
      Bool → Tuple → ℕ → ℕ → ℕ → List RelationColumn → Action B LogError ℕ
  append_columns only_keys tuple i idx size [] = pure size
  append_columns only_keys tuple i idx size (c ∷ cs) =
      if only_keys && not c.is_key
      then (modify (x.append_null i) >> append_columns only_keys tuple (i + 1) idx size cs)
      else append_at c i (get_elem? tuple (if only_keys then idx else i)) >>= λ n.
          append_columns only_keys tuple (i + 1) (if only_keys then idx + 1 else idx) (size + n) cs

abbrev pub table_of : Relation → TableIdentifier
table_of r = record { db_name = r.namespace; table_name = r.relation_name }

abbrev is_delete : RowEventType → Bool
is_delete delete_row_event = true
is_delete _ = false

abbrev is_update : RowEventType → Bool
is_update update_row_event = true
is_update _ = false

module _ {B : Type 0} (x : Writer B) where
  -- A tuple that is not empty: the fields, then the counters and the size, unless a field fails.
  abbrev pub count_appended :
      RowEventType
      → RowEventType
      → Appender B
      → State B
      → TableIdentifier
      → B × Outcome LogError ℕ
      → State B × Outcome LogError Nothing
  count_appended action event a s t (b, done size) = (
    record s {
      deltas =
          put_appender t
            (record a {
              builder = b;
              counters = observe_events event 1 (update_action_stats action 1 a.counters);
            })
            s.deltas;
      delta_buf_size = s.delta_buf_size + size;
    },
    done tt,
  )
  count_appended action event a s t (b, failed e) =
      (record s { deltas = put_appender t (record a { builder = b }) s.deltas }, failed e)
  count_appended action event a s t (b, panicked) =
      (record s { deltas = put_appender t (record a { builder = b }) s.deltas }, panicked)

  unfoldable pub append_tuple :
      Relation
      → Tuple
      → RowEventType
      → RowEventType
      → Bool
      → Appender B
      → State B
      → State B × Outcome LogError Nothing
  append_tuple rel [] action event only_keys a s =
      if is_update event && is_delete action
      then (
        record s {
          deltas =
              put_appender (table_of rel)
                (record a { counters = observe_events update_row_event 1 a.counters }) s.deltas;
        },
        done tt,
      )
      else (s, failed empty_tuple)
  append_tuple rel (t ∷ ts) action event only_keys a s =
      let b =
        x.append_action (event_code action) s.current_transaction_lsn s.in_txn_stmt_id a.builder in
      count_appended action event a s (table_of rel)
        (append_columns x only_keys (t ∷ ts) 0 0 0 rel.columns b)

  abbrev pub schema_of : ℕ → State B → List Column
  schema_of id s = elim (find_id id s.schemas) [ none ↦ [] | some c ↦ c ]

  abbrev pub with_appender :
      (Appender B → State B → State B × Outcome LogError Nothing)
      → State B
      → Outcome LogError (Appender B × Tables B)
      → State B × Outcome LogError Nothing
  with_appender f s (done (a, ts)) = f a (record s { deltas = ts })
  with_appender f s (failed e) = (s, failed e)
  with_appender f s panicked = (s, panicked)

  -- append
  unfoldable pub append_row :
      ℕ → Tuple → RowEventType → RowEventType → Bool → State B → State B × Outcome LogError Nothing
  append_row id tuple action event only_keys s = elim (find_id id s.relations) [
    | none ↦ (s, failed unknown_relation)
    | some rel ↦
        with_appender (append_tuple rel tuple action event only_keys) s
          (get_delta_appender x.new_builder (table_of rel) (schema_of id s) s.deltas)
  ]

  unfoldable pub append_in :
      {D : Type 0} → ℕ → Tuple → RowEventType → RowEventType → Bool → Step D B Nothing
  append_in id tuple action event only_keys r =
      let out = append_row id tuple action event only_keys r.state in
      (record r { state = out.0 }, out.1)

module _ {D T B : Type 0} (db : Session D T) where
  unfoldable pub truncate : ℕ → Step D B Nothing
  truncate id = do
    found ← read (λ r. find_id id r.state.relations)
    elim found [
      | none ↦ fail unknown_relation
      | some rel ↦ attempt statement_failed (
          on_database (
            db.exec_in_txn
              ("TRUNCATE " ⋯ connect_identifiers_ansi (rel.namespace ∷ rel.relation_name ∷ []))))
    ]

  -- The loop over the relations of a truncation.
  unfoldable pub truncate_all : List ℕ → Step D B Nothing
  truncate_all [] = pure tt
  truncate_all (id ∷ ids) = truncate id >> truncate_all ids
