-- ===== src/Samples/Replicas.antt =====
-- A database that stores a position, with a replicator of it, and a loop that runs.
use myduckserver.Base.{
  ℕ, ◌+◌, true, false, Bool, if◌then◌else◌, none, some, List, [], ◌∷◌, ◌++◌, done, ◌≡◌, refl, arith,
}
use myduckserver.Base.Actions.{◌>>=◌, ◌>>◌, pure, read, modify, attempt, deferred, ignoring}
use myduckserver.Delta.Flush.{Engine}
use myduckserver.Delta.Flush.Controller.{flush, flush_tables}
use myduckserver.Logrepl.{
  Tuple, text, begin_message, commit_message, insert_message, reset, Replica,
}
use myduckserver.Logrepl.Session.{Session}
use myduckserver.Logrepl.Rows.{Writer}
use myduckserver.Logrepl.Commit.{rollback_txn, commit_ongoing_txn_if_clean}
use myduckserver.Logrepl.Messages.{Types}
use myduckserver.Logrepl.Durable.{StoresPositions}
use myduckserver.Logrepl.Loop.{
  Event, connect, tick, xlog, deadline, receive_failed, Loop, shutdown, handle_err_with_retry,
  reconnect, on_event, on_lost, step, Reach, here, next,
}
use myduckserver.Logrepl.Acknowledged.{IsAcknowledged, Reach-IsAcknowledged}
use myduckserver.Logrepl.Failures.{run, run_stops}
use myduckserver.Logrepl.Progress.{tick_writes}
use myduckserver.Logrepl.Stale.{process_messages, stale_transaction}

-- The position that is stored, the one that the open transaction has written, and whether one is open.
record Store : Type 0 where
  stored : ℕ
  pending : ℕ
  open_txn : Bool

abbrev store_session : Session Store Bool
store_session = record {
  get_catalog_conn = λ d. (d, true);
  get_catalog_txn = λ d. (record d { pending = d.stored; open_txn = true }, true);
  try_get_txn = λ d. if d.open_txn then some true else none;
  close_txn = λ d. record d { open_txn = false };
  commit = λ t d. (record d { stored = d.pending }, true);
  rollback = λ t d. (record d { pending = d.stored }, true);
  exec_catalog = λ sql d. (d, true);
  exec_in_txn = λ sql d. (d, true);
  update_subscription_lsn = λ l d. (record d { pending = l }, true);
}

abbrev engine : Engine Store ℕ ℕ
engine = record {
  exec = λ sql d. (d, some 1);
  register = λ v r d. (d, true);
  release = λ v d. d;
  hash = λ s. s;
  row_count = λ b. b;
  build = λ b. (b, 0);
  grow = λ n b. b;
  drop_fields = λ n r. r;
  select_fields = λ is r. r;
}

abbrev laws : StoresPositions store_session engine (λ d. d.stored) (λ d. d.pending)
laws = record {
  get_catalog_conn = λ d. refl;
  get_catalog_txn = λ d. refl;
  close_txn = λ d. refl;
  rollback = λ t d. refl;
  exec_catalog = λ sql d. refl;
  exec_in_txn = λ sql d. refl;
  update_stored = λ l d. refl;
  update_pending = λ l d h. refl;
  commit = λ t d. refl;
  exec = λ sql d. refl;
  register = λ v r d. refl;
  release = λ v d. refl;
}

abbrev writer : Writer ℕ
writer = record {
  new_builder = λ s. done 0;
  append_action = λ a q o b. b + 1;
  append_null = λ i b. b;
  decode_to_arrow = λ c i f d b. (b, some 4);
}

abbrev types : Types
types = record { new_postgres_type = λ c. some false; type_name_of = λ n. some "INTEGER" }

-- A replicator that has written up to 9.
abbrev replica : Replica Store ℕ
replica = record {
  state = reset 9 1000;
  database = record { stored = 9; pending = 9; open_txn = false };
}

abbrev loop : Loop Store ℕ
loop = record { replica = replica; conn_err_cnt = 0; connected = false; running = true; sent = [] }

-- A connection, an empty transaction that is committed at once, and a status update.
abbrev run_of_four : List (ℕ × Event)
run_of_four =
    (1000, connect true)
    ∷ (1001, xlog 12 (some (begin_message 12)) true)
    ∷ (1002, xlog 12 (some (commit_message 12)) true)
    ∷ (1003, deadline true)
    ∷ []

reached :
    Reach store_session engine writer types false loop
      (run store_session engine writer types false run_of_four loop)
reached = next 1003 (deadline true) (
    next 1002 (xlog 12 (some (commit_message 12)) true)
      (next 1001 (xlog 12 (some (begin_message 12)) true) (next 1000 (connect true) here)))

Reach-IsAcknowledged_example :
    IsAcknowledged (λ d. d.stored) (run store_session engine writer types false run_of_four loop)
unfolding reset
Reach-IsAcknowledged_example =
    Reach-IsAcknowledged store_session engine (λ d. d.stored) (λ d. d.pending) laws writer types
      false reached (record { durable = refl; told = tt })

-- Ten connections that are opened and lost.
abbrev outage : List (ℕ × Event)
outage = (1, connect true) ∷ (2, receive_failed) ∷ []

abbrev outages : List (ℕ × Event)
outages =
    outage ++ outage ++ outage ++ outage ++ outage ++ outage ++ outage ++ outage ++ outage ++ outage

run_stops_example : (run store_session engine writer types false outages loop).running ≡ false
unfolding step on_lost on_event reconnect handle_err_with_retry shutdown rollback_txn
    commit_ongoing_txn_if_clean reset ◌>>=◌ ◌>>◌ pure read modify attempt deferred ignoring
run_stops_example =
    run_stops store_session engine writer types false outages loop refl (omega arith)

abbrev row : Tuple
row = record { format = text; content = 49 ∷ [] } ∷ []

stale_transaction_example :
    let r' =
      process_messages store_session engine writer types false
        ((1, 8, begin_message 5) ∷ (2, 8, insert_message 7 row) ∷ (3, 8, insert_message 7 row) ∷ [])
        replica in
    (r'.database ≡ replica.database)
    × (r'.state.deltas ≡ replica.state.deltas)
    × (r'.state.last_written_lsn ≡ replica.state.last_written_lsn)
unfolding reset
stale_transaction_example =
    stale_transaction store_session engine writer types false 1 8 5
      ((2, 8, insert_message 7 row) ∷ (3, 8, insert_message 7 row) ∷ []) replica (omega arith) refl

-- A loop with a transaction that is open since the time 1000.
abbrev open_loop : Loop Store ℕ
open_loop = record {
  replica = record {
    state = record (reset 9 1000) {
      dirty_txn = true;
      last_commit_lsn = 12;
      ongoing_batch_txn = true;
    };
    database = record { stored = 9; pending = 9; open_txn = true };
  };
  conn_err_cnt = 0;
  connected = true;
  running = true;
  sent = [];
}

tick_writes_example :
    let l' = step store_session engine writer types false 2000 (tick true) open_loop in
    (l'.replica.state.last_written_lsn ≡ 12)
    × (l'.running ≡ true)
    × (l'.sent ≡ (13, l'.replica.database) ∷ [])
unfolding reset flush flush_tables
tick_writes_example =
    tick_writes store_session engine writer types false 2000 true open_loop
      (record { get_catalog_conn = λ d. refl; update = λ l d. refl; commit = λ t d. refl })
      (refl, refl) (refl, refl) (omega arith) (refl, refl)
