-- ===== src/Lib.antt =====
-- MyDuck Server replicates MySQL and PostgreSQL into DuckDB. A replica decodes the row events of a MySQL
-- binary log, drops those of the tables that its filters exclude, buffers the row images of each table in
-- an Arrow builder, and flushes the buffers into DuckDB by SQL statements. A subscriber to PostgreSQL does the
-- same with the messages of a logical replication stream, in batches of transactions, and tells the primary
-- how far it has written. This library models both paths: the applier of the binary log with its loop, the
-- decoding of cells, the filters, the delta buffer with its flush, and the replicator of PostgreSQL with its
-- loop; and the binary encoding of JSON that the server writes into its own binary log.
--
-- Files and code:
--   Base             helpers that all parts share: lists, tests and results over the native numbers
--   Charset          charset/charset.go: IsSupported (is_supported), IsUTF8, IsSupportedNonUTF8,
--                    getEncoding, EncodeBytes, DecodeBytes
--   Identifier       catalog/identifier.go: QuoteIdentifierANSI, ConnectIdentifiersANSI
--   Binlog           binlog/constants.go (Binlog/FieldType) and binlog/rbr.go: CellLength (cell_length in
--                    Binlog/Length) and CellValue (cell_value in Binlog/CellValue). A case of the switch
--                    of CellValue is a function cell_<type> of Binlog/Numeric, Temporal, Decimal, Text or
--                    Blob; their child modules hold the lemmas and the round trips.
--   Filtering        binlogreplication/binlog_replica_filtering.go: filterConfiguration with its set and
--                    get operations and isTableFilteredOut, and verifyAllTablesAreQualified of
--                    binlogreplication/binlog_replica_controller.go
--   Delta            delta/ and binlog/events.go: the counters of DeltaAppender and the choice of
--                    updateTable (choose_plan); Delta/Statements has the SQL texts, Delta/Flush the
--                    handlers of delta/controller.go and the operations of DeltaController
--   Json             binlogreplication/binlog_json_serialization.go: encodeJsonDoc and encodeJsonValue in
--                    Json/Values, encodeJsonArray in Json/Arrays, encodeJsonObject in Json/Objects;
--                    Json/Layout is the format as a reader sees it
--   Logrepl          pgserver/logrepl/replication.go: replicationState (State); append and truncate in
--                    Logrepl/Rows, the batching of transactions in Logrepl/Commit, processMessage in
--                    Logrepl/Messages, StartReplication in Logrepl/Loop; Logrepl/Ddl is
--                    pgserver/logrepl/ddl.go
--   Applier          binlogreplication/binlog_replica_applier.go: binlogReplicaApplier (Applier); the commits
--                    in Applier/Commit (with Save of binlogreplication/binlog_position_store.go),
--                    startReplicationEventStream in Applier/Connecting (with Load),
--                    executeQueryWithEngine in Applier/Query, the row events in Applier/Rows, RowParsing and
--                    RowEvents, parseQueryEventVars in Applier/Variables, processBinlogEvent in
--                    Applier/Events, replicaBinlogEventHandler in Applier/Loop; Applier/Statements is
--                    mysqlutil/mysqlutil.go, and Applier/Kept has what every operation keeps
--   ReplicaController binlogreplication/binlog_replica_controller.go: myBinlogReplicaController (Controller), with
--                    StartReplica, StopReplica, ResetReplica and AutoStart; the options of the source and of the
--                    filters in ReplicaController/Options, GetReplicaStatus in ReplicaController/Status; with the
--                    records of binlogreplication/binlog_metadata_persistence.go
--   InternalTables   catalog/internal_tables.go: the statements of InternalTable (UpdateStmt and the others)
--   ConnPool         catalog/connpool.go: GetConn, GetConnForSchema, GetTxn, TryGetTxn, CloseTxn;
--                    ConnPool/Sessions is the session on it (adapter/adapter.go, backend/session.go) that
--                    Logrepl uses
--   Samples          test data, and every result at a concrete input
--
-- The state of a cell decoder is the Arrow builder it appends to, a record with the values in it; the
-- state of the filters is a record of four maps; the delta controller is its tables, a list of
-- pairs, and a flush also changes the database and the statistics. Errors are values: an Outcome is a
-- value, an error, or a panic (an index out of range, a failed type assertion). The replicator runs on a
-- Replica, its state beside the database; a step of it is an Action (Base/Actions), which changes the state
-- also when it fails. The loop is a step on an event, with the time at which the event comes, and Reach holds
-- what any sequence of events leads to; concurrent calls of Stop are events too. The applier runs in the same way
-- on Applying, its state beside the status and the database: turn is a step of its loop, and Reaches holds what
-- any sequence of turns leads to.
--
-- Bounds: a byte slice has the capacity of its length, so that a slice beyond the end panics; of the bytes that Go
-- reads behind the end of the data, where the capacity is larger, nothing is shown. A sum of
-- shifted bytes is written with `*` and `+`, and 8-, 16-, 32- and 64-bit conversions keep their wrap-around.
-- The loop that pads a decimal runs on fuel, one more than the scale it has to reach, of which a turn
-- takes at least one; the loop behind bits.Len64 runs on its argument, which each turn halves. The loop over
-- the variables of a Query event runs on the number of their bytes, of which a turn takes at least one; the
-- bytes of that event go up to the capacity of its buffer.
--
-- Third-party code is a parameter: the codecs of golang.org/x/text (Codecs), the JSON parsers (Externals),
-- strings.ToLower (`lower`), DuckDB, the Arrow library and maphash (Engine), database/sql (Driver), the Arrow
-- builders of decodeToArrow (Writer) and of CellValue (Rower), go-mysql-server with the session (Server), the
-- calls of the mysql database and of the file system (Metadata),
-- Vitess's events (BinlogReader) and positions (Positions). Hypotheses on them stand in the theorems. time.Date
-- and time.Unix are recorded with their arguments; FromBigInt of Arrow's decimals panics on more than 127 and 255 bits.
--
-- Not modelled: the attempts of the applier to connect to its source, loadReplicaServerId and convertSqlTypesValue
-- (parameters), the names of log files, the
-- PostgreSQL server, the slots and publications on the primary, the rest of the catalog, the SQL engines and the
-- meaning of SQL in DuckDB, and what only does input and output.
mod Base
pub mod Charset
pub mod Identifier
pub mod Binlog
pub mod Filtering
pub mod Delta
pub mod Json
pub mod Logrepl
pub mod Applier
pub mod ReplicaController
pub mod InternalTables
pub mod ConnPool
pub mod Samples
