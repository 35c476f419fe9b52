-- ===== src/Samples/Appliers.antt =====
-- A server that stores positions, an applier on it, and what a reader makes of three events.
use Prim.Native.String.{String}
use myduckserver.Base.{
  ℕ, zero, suc, ◌+◌, leb, true, false, Bool, if◌then◌else◌, Option, none, some, List, [], ◌∷◌, ◌++◌,
  All, done, failed, ◌≡◌, ◌⊎◌, refl, inl, inr, arith,
}
use myduckserver.Base.Actions.{◌>>=◌, ◌>>◌, pure, fail, modify, attempt}
use myduckserver.Delta.{
  on_close, insert_row_event, count_event, update_action_stats, observe_events,
}
use myduckserver.Delta.Flush.{Engine, Appender}
use myduckserver.Delta.Flush.Controller.{flush, flush_tables}
use myduckserver.Applier.{
  Gtid, mariadb_gtid, BinlogFormat, Positions, TableMap, Bitmap, BinlogRow, Applier, Applying,
  unknown_event_type,
}
use myduckserver.Applier.Statements.{other_node, start_transaction}
use myduckserver.Applier.Server.{Server, rows_read, committed_ok}
use myduckserver.Applier.Commit.{
  normal_commit, flush_delta_buffer, flush_in_catalog_txn, note_gtid, save_position, commit_session,
  execute, commit_txn_in_progress, settle, position_reached, commit_ongoing_txn,
  may_extend_batch_txn, extend_or_commit_batch_txn,
}
use myduckserver.Applier.Rows.{
  Rower, TxnMark, append_event, append_action, append_images, append_image, append_cells,
}
use myduckserver.Applier.RowEvents.{unsupported, process_rows, process_row_event}
use myduckserver.Applier.Query.{execute_node}
use myduckserver.Binlog.Cell.Encode.{le_bytes}
use myduckserver.Delta.Statements.{Column}
use myduckserver.Filtering.{is_table_filtered_out}
use myduckserver.Applier.Events.{
  EventKind, gtid_event, xid_event, other_event, BinlogReader, strip, process_kind, process_other,
  note_table_map, process_binlog_event,
}
use myduckserver.Applier.Loop.{
  connected, Happening, connecting, sql_error, binlog_event, ticking, Handler, Reaches, at_start,
  turned, turn,
}
use myduckserver.Applier.Variables.{QueryVar, flags2_var, sql_mode_var, other_var, vars_loop}
use myduckserver.Applier.Announced.{
  Stored, ServesPositions, StartsWithin, IsClosed, IsWithin, Reaches-IsWithin,
}
use myduckserver.Applier.Flags.{IsFlagged, Reaches-IsFlagged}
use myduckserver.Applier.Kept.{core}
use myduckserver.Applier.StoredPosition.{CommitsPositions, commit_ongoing_txn-stored}
use myduckserver.Applier.Settled.{extend_or_commit_batch_txn-core}
use myduckserver.Applier.Begins.{execute_node-pending}
use myduckserver.Applier.Turns.{turn-announced}
use myduckserver.Applier.Variables.Blocks.{vars_loop-le_bytes, vars_loop_zero_mode}
use myduckserver.Applier.Counted.{append_event-count_event}
use myduckserver.Applier.Mapped.{process_row_event-note_table_map}

abbrev Gtids : Type 0
Gtids = List Gtid

abbrev gtid_seven : Gtid
gtid_seven = mariadb_gtid 0 1 7

abbrev append : Gtids → Option Gtid → Gtids
append q none = q
append q (some g) = q ++ (g ∷ [])

abbrev none_yet : Gtids → Bool
none_yet [] = true
none_yet _ = false

abbrev positions : Positions Gtids
positions = record { zero_position = []; append_gtid = append; is_zero = none_yet }

-- The position that a text of strokes stands for.
abbrev sevens : String → Gtids
sevens String.[] = []
sevens (String.◌∷◌ c s) = gtid_seven ∷ sevens s

abbrev server : Server (Stored Gtids) ℕ Gtids ℕ
server = record {
  get_catalog_conn = λ d. (d, true);
  get_catalog_txn = λ d. (d, some 3);
  get_txn = λ d. (d, true);
  try_get_txn = λ d. some 3;
  close_txn = λ d. d;
  commit = λ t d. (record d { stored = d.written }, committed_ok);
  rollback = λ t d. record d { written = d.stored };
  upsert_position = λ q d. (record d { written = q }, true);
  set_current_database = λ n d. d;
  prepare_query = λ sql d. (d, some other_node);
  query = λ sql d. (d, rows_read);
  set_session_variable = λ n k d. d;
  get_autocommit = λ d. true;
  assign_gtid_executed = λ q d. d;
  has_configuration = λ d. true;
  put_source_uuid = λ u d. (d, true);
  get_table = λ n k d. some none;
  write_rows = λ db n k is ds b d. (d, true);
  source_server = λ g. "source";
  stored_position = λ d. some none;
  parse_position = λ f text. some (sevens text);
  trim_prefix = λ pre text. text;
  gtid_purged = λ d. some "||";
  first_position = gtid_seven ∷ [];
  source_position = λ d. gtid_seven ∷ [];
  configured_uuid = λ d. "source";
  load_replica_server_id = λ d. true;
  request_events = λ q d. true;
  error_text = λ err. 101 ∷ [];
  lower = λ s. s;
}

abbrev duck : Engine (Stored Gtids) ℕ ℕ
duck = record {
  exec = λ sql d. (d, some 1);
  register = λ v r d. (d, true);
  release = λ v d. d;
  hash = λ s. s;
  row_count = λ b. b;
  build = λ b. (b, 0);
  grow = λ n b. b;
  drop_fields = λ n r. r;
  select_fields = λ is r. r;
}

abbrev rower : Rower ℕ ℕ ℕ
rower = record {
  new_builder = λ s. done 0;
  append_txn = λ k m n b. b + 1;
  append_null = λ i b. b;
  cell_value = λ d pos t k c i b. (b, some 4);
  parse_cell = λ d pos t k c. some (5, 4);
  null_value = 0;
  convert_value = λ c y. some y;
  append_uint = λ n. n ∷ [];
}

-- The codes of MySQL for the flags and the mode.
abbrev query_var : ℕ → QueryVar
query_var n = if leb n 0 then flags2_var else if leb n 1 then sql_mode_var else other_var

abbrev kind_of : ℕ → EventKind
kind_of zero = gtid_event
kind_of (suc zero) = xid_event
kind_of _ = other_event

abbrev reader : BinlogReader ℕ
reader = record {
  kind = kind_of;
  server_id = λ ev. 1;
  bytes = λ ev. 0 ∷ 0 ∷ 0 ∷ 0 ∷ 9 ∷ [];
  strip_checksum = λ f ev. (ev, true);
  format = λ ev. none;
  query = λ f ev. none;
  previous_gtids = λ f ev. true;
  gtid = λ f ev. some (gtid_seven, false);
  table_id = λ f ev. 5;
  table_map = λ f ev. none;
  rows = λ f ev t. none;
  query_var = query_var;
  auto_is_null = 16384;
  not_autocommit = 524288;
  no_foreign_key_checks = 67108864;
  relaxed_unique_checks = 134217728;
}

abbrev new_applier : Applier ℕ Gtids
new_applier = record {
  format = some (record { format_version = 4; header_length = 19; checksum_algorithm = 1 });
  table_maps_by_id = [];
  tables_by_name = [];
  current_gtid = none;
  previous_gtid = none;
  replication_source_uuid = "source";
  current_position = [];
  pending_position = [];
  filters = none;
  ongoing_batch_txn = false;
  dirty_txn = false;
  dirty_stream = false;
  in_txn_stmt_id = 0;
  delta_buf_size = 0;
  last_commit_time = 0;
  deltas = [];
}

abbrev applying : Applying (Stored Gtids) ℕ Gtids
applying = record {
  applier = new_applier;
  status = record {
    source_server_id = 0;
    last_sql_error = [];
    last_sql_err_number = 0;
    last_sql_error_timestamp = none;
    last_io_error = [];
    last_io_err_number = 0;
    last_io_error_timestamp = none;
  };
  database = record { stored = []; written = [] };
}

abbrev handler : Handler (Stored Gtids) ℕ Gtids
handler = record { applying = applying; has_conn = true; running = true }

-- A GTID, a commit, and a tick
abbrev three_turns : List (ℕ × Happening ℕ)
three_turns = (30, ticking) ∷ (20, binlog_event 1) ∷ (10, binlog_event 0) ∷ []

-- A lost connection and a new one, from the last to the first
abbrev reconnected : List (ℕ × Happening ℕ)
reconnected =
    (50, connecting (connected "MySQL56" true)) ∷ (40, sql_error (69 ∷ []) true) ∷ three_turns

abbrev behind : List (ℕ × Happening ℕ) → Handler (Stored Gtids) ℕ Gtids
behind [] = handler
behind ((now, ev) ∷ evs) = turn server positions duck rower reader true now ev (behind evs)

behind-Reaches :
    (evs : List (ℕ × Happening ℕ))
    → Reaches server positions duck rower reader true handler (behind evs)
behind-Reaches [] = at_start
behind-Reaches ((now, ev) ∷ evs) = turned now ev (behind-Reaches evs)

Reaches-IsFlagged_example : IsFlagged (core (behind reconnected).applying.applier)
Reaches-IsFlagged_example =
    Reaches-IsFlagged server positions duck rower reader true handler (behind reconnected)
      (behind-Reaches reconnected) (λ q. cc, λ q. cc)

abbrev IsSeven : Gtid → Type 0
IsSeven g = g ≡ gtid_seven

all_append : (q : Gtids) (g : Gtid) → All IsSeven q → IsSeven g → All IsSeven (q ++ (g ∷ []))
all_append [] g h k = (k, tt)
all_append (x ∷ q) g (h, hs) k = (h, all_append q g hs k)

closed : IsClosed positions IsSeven (All IsSeven)
closed = record { append = all_append; append_nothing = λ q h. h }

serves : ServesPositions server duck (λ d. d)
serves = record {
  get_catalog_conn = λ d. (inl refl, inl refl);
  get_catalog_txn = λ d. (inl refl, inl refl);
  get_txn = λ d. (inl refl, inl refl);
  close_txn = λ d. (inl refl, inl refl);
  commit = λ t d. (inr refl, inl refl);
  rollback = λ t d. (inl refl, inr refl);
  upsert_stored = λ q d. inl refl;
  upsert_written = λ q d. inr refl;
  prepare_query = λ sql d. (inl refl, inl refl);
  query = λ sql d. (inl refl, inl refl);
  set_current_database = λ n d. (inl refl, inl refl);
  set_session_variable = λ n k d. (inl refl, inl refl);
  assign_gtid_executed = λ q d. (inl refl, inl refl);
  put_source_uuid = λ u d. (inl refl, inl refl);
  write_rows = λ db n k is ds b d. (inl refl, inl refl);
  exec = λ sql d. refl;
  register = λ n r d. refl;
  release = λ n d. refl;
}

received :
    (f : BinlogFormat) (ev : ℕ) (g : Gtid) (b : Bool) → reader.gtid f ev ≡ some (g, b) → IsSeven g
received f ev g b q = cc

sevens_all : (s : String) → All IsSeven (sevens s)
sevens_all String.[] = tt
sevens_all (String.◌∷◌ c s) = (refl, sevens_all s)

starts : StartsWithin server positions (All IsSeven) (λ d. d)
starts = record {
  stored = λ f text d q s k. cc;
  nothing = tt;
  purged = λ f text d q s k. let e : q ≡ sevens text = cc in rw e (sevens_all text);
  first = (refl, tt);
  source = λ d. (refl, tt);
}

Reaches-IsWithin_example :
    IsWithin IsSeven
      (All IsSeven)
      (core (behind reconnected).applying.applier)
      (behind reconnected).applying.database
Reaches-IsWithin_example =
    Reaches-IsWithin positions IsSeven (All IsSeven) closed server duck (λ d. d) serves starts rower
      reader true handler (behind reconnected) received (behind-Reaches reconnected)
      (tt, tt, tt, tt, tt, tt)

-- The applier in a transaction, with a GTID that is not at the end of its position yet.
abbrev in_txn : Applying (Stored Gtids) ℕ Gtids
in_txn = record applying {
  applier = record new_applier {
    current_gtid = some gtid_seven;
    dirty_txn = true;
    dirty_stream = true;
  };
}

commits : CommitsPositions server (λ d. d)
commits = record {
  upsert = λ q d h. refl;
  commit_query = λ d h. refl;
  no_txn = λ d h. cc;
  commit = λ t d h. refl;
  close_txn = λ d. refl;
  assign_gtid_executed = λ q d. refl;
}

committed_in_txn :
    (commit_ongoing_txn server positions duck true 10 normal_commit on_close in_txn).1 ≡ done tt
unfolding commit_ongoing_txn flush_delta_buffer flush_in_catalog_txn note_gtid save_position
    commit_session commit_txn_in_progress settle position_reached execute attempt modify pure fail
    ◌>>◌ flush flush_tables
committed_in_txn = refl

commit_ongoing_txn-stored_example :
    (commit_ongoing_txn server positions duck true 10 normal_commit on_close
      in_txn).0.database.stored
    ≡ gtid_seven ∷ []
unfolding commit_ongoing_txn flush_delta_buffer flush_in_catalog_txn note_gtid save_position
    commit_session commit_txn_in_progress settle position_reached execute attempt modify pure fail
    ◌>>◌ flush flush_tables
commit_ongoing_txn-stored_example =
    (commit_ongoing_txn-stored server positions duck true (λ d. d) commits 10 normal_commit on_close
      in_txn committed_in_txn).1

extended_in_txn : (extend_or_commit_batch_txn server positions duck true 10 in_txn).1 ≡ done tt
unfolding extend_or_commit_batch_txn may_extend_batch_txn commit_ongoing_txn flush_delta_buffer
    flush_in_catalog_txn note_gtid save_position commit_session commit_txn_in_progress settle
    position_reached execute attempt modify pure fail ◌>>◌ flush flush_tables
extended_in_txn = refl

extend_or_commit_batch_txn-core_example :
    (extend_or_commit_batch_txn server positions duck true 10 in_txn).0.applier.pending_position
    ≡ gtid_seven ∷ []
extend_or_commit_batch_txn-core_example =
    (extend_or_commit_batch_txn-core server positions duck true 10 in_txn extended_in_txn).0

execute_node-pending_example :
    let b =
      (execute_node server positions duck true 10 "BEGIN" start_transaction in_txn).0.applier in
    (b.pending_position ≡ []) ⊎ (b.pending_position ≡ [])
execute_node-pending_example = execute_node-pending server positions duck true 10 "BEGIN" in_txn

unknown_event : process_binlog_event server positions duck rower reader true 10 2 applying ≡ (
  record applying { status = record applying.status { source_server_id = 1 } },
  failed (unknown_event_type 9),
)
unfolding process_binlog_event strip process_kind process_other pure fail modify ◌>>=◌ ◌>>◌
unknown_event = refl

-- A batch that goes on, behind a commit event
abbrev new_batch : Applier ℕ Gtids
new_batch = record new_applier { ongoing_batch_txn = true; dirty_txn = true }

abbrev batch : Handler (Stored Gtids) ℕ Gtids
batch = record handler { applying = record applying { applier = new_batch } }

batch_extends : (may_extend_batch_txn 20 new_batch).0 ≡ true
unfolding may_extend_batch_txn
batch_extends = refl

turn-announced_example :
    let k =
      turn server positions duck rower reader true 20 ticking
        (turn server positions duck rower reader true 10 (binlog_event 0) batch) in
    k.applying.applier.pending_position ≡ gtid_seven ∷ []
turn-announced_example =
    (turn-announced server positions duck rower reader true 10 20 0
      (record { format_version = 4; header_length = 19; checksum_algorithm = 1 }) gtid_seven batch
      (refl, refl) refl batch_extends refl refl refl refl refl).0

-- NO_FOREIGN_KEY_CHECKS, with the modes STRICT_TRANS_TABLES and ONLY_FULL_GROUP_BY
vars_loop-le_bytes_example :
    vars_loop query_var 20 20
      (0 ∷ (le_bytes 4 67108864 ++ (1 ∷ (le_bytes 8 2097184 ++ (6 ∷ 3 ∷ 115 ∷ 116 ∷ 100 ∷ [])))))
      0
      0
    ≡ done (67108864, 2097184)
vars_loop-le_bytes_example =
    vars_loop-le_bytes query_var 17 19 0 1 67108864 2097184 (6 ∷ 3 ∷ 115 ∷ 116 ∷ 100 ∷ []) refl refl
      (omega arith) (omega arith) (omega arith) refl

-- Without a mode, NO_FOREIGN_KEY_CHECKS is as good as no flag.
vars_loop_zero_mode_example :
    vars_loop query_var 20 20
      (0 ∷ (le_bytes 4 67108864 ++ (1 ∷ (le_bytes 8 0 ++ (6 ∷ 3 ∷ 115 ∷ 116 ∷ 100 ∷ [])))))
      0
      0
    ≡ vars_loop query_var 20 20
        (0 ∷ (le_bytes 4 0 ++ (1 ∷ (le_bytes 8 0 ++ (6 ∷ 3 ∷ 115 ∷ 116 ∷ 100 ∷ [])))))
        0
        0
vars_loop_zero_mode_example =
    vars_loop_zero_mode query_var 17 19 1 67108864 0 (6 ∷ 3 ∷ 115 ∷ 116 ∷ 100 ∷ []) refl refl
      (omega arith) (omega arith) (omega arith)

abbrev table_map : TableMap
table_map = record { flags = 1; database = "db"; name = "t"; types = 3 ∷ []; metadata = 0 ∷ [] }

abbrev no_bits : Bitmap
no_bits = record { bit_count = 1; bit = λ i. false }

abbrev row : BinlogRow
row = record {
  null_identify_columns = no_bits;
  null_columns = no_bits;
  identify = [];
  content = 1 ∷ 0 ∷ 0 ∷ 0 ∷ [];
}

abbrev schema : List Column
schema = record { name = "id"; is_timestamp = false; primary_key = true } ∷ []

abbrev empty_appender : Appender ℕ
empty_appender = record {
  base = schema;
  builder = 0;
  counters = record {
    event_delete = 0;
    event_insert = 0;
    event_update = 0;
    action_delete = 0;
    action_insert = 0;
  };
}

abbrev mark : TxnMark
mark = record { tag = []; server = []; group = []; seq = 7 }

appended_row :
    (append_event rower table_map schema insert_row_event mark 0 (row ∷ []) (empty_appender, 0)).1
    ≡ done tt
unfolding append_event append_action append_images append_image append_cells ◌>>=◌ ◌>>◌ modify pure
appended_row = refl

append_event-count_event_example :
    (append_event rower table_map schema insert_row_event mark 0
      (row ∷ [])
      (empty_appender, 0)).0.0.counters
    ≡ record {
      event_delete = 0;
      event_insert = 1;
      event_update = 0;
      action_delete = 0;
      action_insert = 1;
    }
unfolding count_event update_action_stats observe_events
append_event-count_event_example =
    append_event-count_event rower table_map schema mark 0 insert_row_event (row ∷ [])
      empty_appender 0 appended_row

known_flags : unsupported table_map.flags ≡ 0
unfolding unsupported
known_flags = refl

process_row_event-note_table_map_example :
    let s = (note_table_map server positions duck rower reader true 10 5 table_map applying).0 in
    process_row_event server rower 11 insert_row_event 5 (λ t. none) s
    ≡ process_rows server rower 11 table_map insert_row_event none s
unfolding is_table_filtered_out
process_row_event-note_table_map_example =
    process_row_event-note_table_map server positions duck rower reader true 10 11 5 table_map
      insert_row_event (λ t. none) applying known_flags refl
