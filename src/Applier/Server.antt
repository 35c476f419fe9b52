-- ===== src/Applier/Server.antt =====
-- What the applier asks of go-mysql-server's engine, of the session in adapter/ and of database/sql.
use Prim.Native.String.{String}
use myduckserver.Base.{ℕ, Bool, Option, List}
use myduckserver.Charset.{Bytes}
use myduckserver.Delta.{RowEventType}
use myduckserver.Applier.{ApplyError, ReplicaTable, Gtid}
use myduckserver.Applier.Statements.{Node}

-- How engine.Query and the loop over its rows end: an error "nothing to commit", another error, the last
-- row, an error behind a row.
pub data Executed : Type 0 where
  nothing_to_commit execution_failed rows_read reading_failed : Executed

-- tx.Commit; ErrTxDone is told apart.
pub data Committed : Type 0 where
  committed_ok tx_done not_committed : Committed

-- A `V` is a value of a sql.Row; a Boolean is whether the call succeeds.
pub record Server (D T P V : Type 0) : Type 0 where
  pub get_catalog_conn : D → D × Bool
  pub get_catalog_txn : D → D × Option T
  pub get_txn : D → D × Bool
  pub try_get_txn : D → Option T
  pub close_txn : D → D
  pub commit : T → D → D × Committed
  pub rollback : T → D → D
  -- ExecCatalogInTxn with the statement that stores a position
  pub upsert_position : P → D → D × Bool
  -- the session's current database, in which PrepareQuery and Query work
  pub set_current_database : String → D → D
  pub prepare_query : String → D → D × Option Node
  pub query : String → D → D × Executed
  pub set_session_variable : String → ℕ → D → D
  pub get_autocommit : D → Bool
  pub assign_gtid_executed : P → D → D
  -- the source's configuration: whether there is one, and persistSourceUuid where there is
  pub has_configuration : D → Bool
  pub put_source_uuid : String → D → D × Bool
  -- the catalog's database and table; no table where there is none, an error where it cannot be asked
  pub get_table : String → String → D → Option (Option ReplicaTable)
  -- GetTableWriter, then Insert, Delete or Update: identity rows, data rows, without foreign keys
  pub write_rows :
      String → String → RowEventType → List (List V) → List (List V) → Bool → D → D × Bool
  pub source_server : Gtid → String
  -- QueryRowCatalog of the stored position: an error, no row, or its text
  pub stored_position : D → Option (Option String)
  -- replication.ParsePosition, by the flavor, and strings.TrimPrefix of a prefix
  pub parse_position : String → String → Option P
  pub trim_prefix : String → String → String
  -- the variable gtid_purged, where it is a string
  pub gtid_purged : D → Option String
  -- the set of the first GTID of the server 0, and the log file and offset of the configuration
  pub first_position : P
  pub source_position : D → P
  -- the UUID in the configuration, empty where there is none
  pub configured_uuid : D → String
  pub load_replica_server_id : D → Bool
  -- the checksums and the request to send the events behind a position, over the connection
  pub request_events : P → D → Bool
  -- the text of an error
  pub error_text : ApplyError → Bytes
  -- strings.ToLower
  pub lower : String → String
