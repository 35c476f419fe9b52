-- ===== src/Logrepl/Durable/Messages.antt =====
-- No message changes the written position but by a commit.
use myduckserver.Base.{ℕ, Bool, true, false, Option, none, some, List, [], ◌∷◌, sym, ◌∙◌, arith}
use myduckserver.Base.Actions.{
  Nothing, Keeps, >>=-Keeps, >>-Keeps, pure-Keeps, fail-Keeps, read-Keeps, modify-Keeps, if-Keeps,
  option-Keeps, attempt-Keeps, ignoring-Keeps, pure,
}
use myduckserver.Delta.{RowEventType, ddl_stmt, dml_stmt}
use myduckserver.Delta.Flush.{Engine}
use myduckserver.Logrepl.{
  Relation, OldTuple, key_tuple, old_tuple, no_tuple, Message, relation_message, begin_message,
  commit_message, insert_message, update_message, delete_message, truncate_message, stream_start,
  stream_stop, other_message, Step, Tuple, unknown_relation, unsupported_type, missing_old_tuple,
  parse_failed, set_state,
}
use myduckserver.Logrepl.Session.{Session}
use myduckserver.Logrepl.Rows.{Writer, append_in, truncate, truncate_all}
use myduckserver.Logrepl.Messages.{
  Types, unless_stale, create_table, set_types, process_relation, commit_unless_extended, open_txn,
  process_begin, process_commit, append_old, append_deleted, process, process_message, changed,
  receive, schema_of_columns,
}
use myduckserver.Logrepl.Durable.{
  StoresPositions, IsDurable, flush_delta_buffer-IsDurable, commit_ongoing_txn-IsDurable,
}
use myduckserver.Logrepl.Durable.Rows.{append_row-lsn, changed-lsn, receive-lsn}

module _ {D T B R : Type 0} (db : Session D T) (e : Engine D B R) (stored pending : D → ℕ)
    (laws : StoresPositions db e stored pending) where
  append_in-IsDurable :
      (x : Writer B) (id : ℕ) (tuple : Tuple) (action event : RowEventType) (only_keys : Bool)
      → Keeps (IsDurable stored) (append_in {B = B} x {D = D} id tuple action event only_keys)
  unfolding append_in
  append_in-IsDurable x id tuple action event only_keys = record {
    keeps = λ r p. append_row-lsn x id tuple action event only_keys r.state ∙ p;
  }

  truncate-IsDurable : (id : ℕ) → Keeps (IsDurable stored) (truncate {B = B} db id)
  unfolding truncate
  truncate-IsDurable id = >>=-Keeps (read-Keeps _) (λ o.
      option-Keeps o (fail-Keeps unknown_relation)
        (λ rel. attempt-Keeps _ _ (λ r p. p ∙ sym (laws.exec_in_txn _ r.database))))

  truncate_all-IsDurable : (ids : List ℕ) → Keeps (IsDurable stored) (truncate_all {B = B} db ids)
  unfolding truncate_all
  truncate_all-IsDurable [] = pure-Keeps tt
  truncate_all-IsDurable (id ∷ ids) = >>-Keeps (truncate-IsDurable id) (truncate_all-IsDurable ids)

  module _ (x : Writer B) (ty : Types) (no_index : Bool) where
    unless_stale-IsDurable :
        (m : Step D B Nothing)
        → Keeps (IsDurable stored) m
        → Keeps (IsDurable stored) (unless_stale db e x ty no_index m)
    unfolding unless_stale
    unless_stale-IsDurable m h =
        let k = >>-Keeps h (
          >>-Keeps (modify-Keeps (set_state changed) (λ r p. changed-lsn r.state ∙ p))
            (pure-Keeps false)) in
        record { keeps = λ r p. ground (arith, k.keeps r p) }

    create_table-IsDurable :
        (rel : Relation) → Keeps (IsDurable stored) (create_table db e x ty no_index rel)
    unfolding create_table
    create_table-IsDurable rel = attempt-Keeps _ _ (λ r p. p ∙ sym (laws.exec_catalog _ r.database))

    set_types-IsDurable :
        (id : ℕ) (rel : Relation) → Keeps (IsDurable stored) (set_types db e x ty no_index id rel)
    unfolding set_types
    set_types-IsDurable id rel =
        option-Keeps (schema_of_columns ty rel.columns) (fail-Keeps unsupported_type)
          (λ schema. modify-Keeps _ (λ r p. p))

    process_relation-IsDurable :
        (now id : ℕ) (rel : Relation)
        → Keeps (IsDurable stored) (process_relation db e x ty no_index now id rel)
    unfolding process_relation
    process_relation-IsDurable now id rel = >>=-Keeps (read-Keeps _) (λ known.
        >>-Keeps
          (if-Keeps known
            (commit_ongoing_txn-IsDurable db e stored pending laws no_index now ddl_stmt)
            (pure-Keeps tt))
          (>>-Keeps (modify-Keeps _ (λ r p. p)) (
            >>-Keeps (set_types-IsDurable id rel)
              (>>-Keeps (create_table-IsDurable rel) (pure-Keeps false)))))

    commit_unless_extended-IsDurable :
        (now : ℕ) (next : Step D B Nothing)
        → Keeps (IsDurable stored) next
        → Keeps (IsDurable stored) (commit_unless_extended db e x ty no_index now next)
    unfolding commit_unless_extended
    commit_unless_extended-IsDurable now next k = >>=-Keeps (read-Keeps _) (λ may.
        if-Keeps may.0 (pure-Keeps tt)
          (>>-Keeps (commit_ongoing_txn-IsDurable db e stored pending laws no_index now may.1) k))

    open_txn-IsDurable : Keeps (IsDurable stored) (open_txn db e x ty no_index)
    unfolding open_txn
    open_txn-IsDurable =
        >>-Keeps (attempt-Keeps _ _ (λ r p. p ∙ sym (laws.get_catalog_txn r.database)))
          (modify-Keeps _ (λ r p. p))

    process_begin-IsDurable :
        (now lsn : ℕ) → Keeps (IsDurable stored) (process_begin db e x ty no_index now lsn)
    unfolding process_begin
    process_begin-IsDurable now lsn =
        let k =
          >>-Keeps
            (modify-Keeps
              (set_state (λ s. record s { process_messages = true; current_transaction_lsn = lsn }))
              (λ r p. p))
            (>>-Keeps
              (commit_unless_extended-IsDurable now (open_txn db e x ty no_index)
                open_txn-IsDurable)
              (pure-Keeps false)) in
        record { keeps = λ r p. ground (arith, k.keeps r p) }

    process_commit-IsDurable :
        (now lsn : ℕ) → Keeps (IsDurable stored) (process_commit db e x ty no_index now lsn)
    unfolding process_commit
    process_commit-IsDurable now lsn = >>-Keeps (modify-Keeps _ (λ r p. p)) (
        >>-Keeps (commit_unless_extended-IsDurable now (pure tt) (pure-Keeps tt))
          (>>-Keeps (modify-Keeps _ (λ r p. p)) (pure-Keeps true)))

    append_old-IsDurable :
        (id : ℕ) (old : OldTuple) → Keeps (IsDurable stored) (append_old db e x ty no_index id old)
    unfolding append_old
    append_old-IsDurable id (key_tuple t) = append_in-IsDurable x id t _ _ _
    append_old-IsDurable id (old_tuple t) = append_in-IsDurable x id t _ _ _
    append_old-IsDurable id no_tuple = append_in-IsDurable x id [] _ _ _

    append_deleted-IsDurable :
        (id : ℕ) (old : OldTuple)
        → Keeps (IsDurable stored) (append_deleted db e x ty no_index id old)
    unfolding append_deleted
    append_deleted-IsDurable id (key_tuple t) = append_in-IsDurable x id t _ _ _
    append_deleted-IsDurable id (old_tuple t) = append_in-IsDurable x id t _ _ _
    append_deleted-IsDurable id no_tuple = fail-Keeps missing_old_tuple

    process-IsDurable :
        (now : ℕ) (m : Message) → Keeps (IsDurable stored) (process db e x ty no_index now m)
    unfolding process
    process-IsDurable now (relation_message id rel) = process_relation-IsDurable now id rel
    process-IsDurable now (begin_message lsn) = process_begin-IsDurable now lsn
    process-IsDurable now (commit_message lsn) = process_commit-IsDurable now lsn
    process-IsDurable now (insert_message id t) =
        unless_stale-IsDurable _ (append_in-IsDurable x id t _ _ _)
    process-IsDurable now (update_message id old new) =
        unless_stale-IsDurable _
          (>>-Keeps (append_old-IsDurable id old) (append_in-IsDurable x id new _ _ _))
    process-IsDurable now (delete_message id old) =
        unless_stale-IsDurable _ (append_deleted-IsDurable id old)
    process-IsDurable now (truncate_message ids) = unless_stale-IsDurable _ (
        >>-Keeps
          (ignoring-Keeps
            (flush_delta_buffer-IsDurable db e stored pending laws no_index false dml_stmt))
          (truncate_all-IsDurable ids))
    process-IsDurable now stream_start = >>-Keeps (modify-Keeps _ (λ r p. p)) (pure-Keeps false)
    process-IsDurable now stream_stop = >>-Keeps (modify-Keeps _ (λ r p. p)) (pure-Keeps false)
    process-IsDurable now other_message = pure-Keeps false

    pub process_message-IsDurable :
        (now wal_end : ℕ) (m : Option Message)
        → Keeps (IsDurable stored) (process_message db e x ty no_index now wal_end m)
    unfolding process_message
    process_message-IsDurable now wal_end none = fail-Keeps parse_failed
    process_message-IsDurable now wal_end (some m) =
        >>-Keeps
          (modify-Keeps (set_state (receive wal_end)) (λ r p. receive-lsn wal_end r.state ∙ p))
          (process-IsDurable now m)
