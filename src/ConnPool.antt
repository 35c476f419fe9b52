-- ===== src/ConnPool.antt =====
-- catalog/connpool.go: the connections and the transactions of the sessions. database/sql with DuckDB is a
-- parameter (Driver). Go's maps are lists of pairs, and logging is left out.
pub mod Handles
pub mod Sessions
use Prim.Native.String.{String}
use text.Mathlib.Text.{◌==◌}
use myduckserver.Base.{
  ℕ, Bool, true, false, if◌then◌else◌, Option, none, some, List, [], ◌∷◌, Outcome, done, failed,
  panicked,
}
use myduckserver.Base.Maps.{find_id, put_id, delete_id}
use myduckserver.Base.Actions.{Action, Nothing, ◌>>=◌, ◌>>◌, pure, fail}
use myduckserver.Delta.Statements.{◌⋯◌}

-- A database `D`, its connections `C` and its transactions `T`. A result that is missing is an error.
pub record Driver (D C T : Type 0) : Type 0 where
  -- DB.Conn
  pub open_conn : D → D × Option C
  -- QueryRowContext with Scan
  pub query_one : C → String → D → D × Option String
  -- ExecContext: the error, if any, and of it whether IsDuckDBSetSchemaNotFoundError holds
  pub exec_conn : C → String → D → D × Option Bool
  pub begin_tx : C → D → D × Option T
  pub exec_tx : T → String → List String → D → D × Bool
  pub commit_tx : T → D → D × Bool
  pub rollback_tx : T → D → D × Bool

pub data PoolError : Type 0 where
  connection_failed query_failed database_not_found exec_failed begin_failed : PoolError

pub record ConnectionPool (D C T : Type 0) : Type 0 where
  pub database : D
  pub conns : List (ℕ × C)
  pub txns : List (ℕ × T)

-- FullSchemaName of catalog/identifier.go
abbrev pub full_schema_name : String → String → String
full_schema_name catalog schema =
    if catalog == ""
    then "\"" ⋯ schema ⋯ "\""
    else if schema == ""
    then "\"" ⋯ catalog ⋯ "\""
    else "\"" ⋯ catalog ⋯ "\".\"" ⋯ schema ⋯ "\""

module _ {D C T : Type 0} (drv : Driver D C T) where
  abbrev Pool : Type 0 → Type 0
  Pool A = Action (ConnectionPool D C T) PoolError A

  -- A call of the driver, with the pool around the database.
  abbrev pub on_driver {ℓ} :
      {A : Type ℓ} → (D → D × A) → ConnectionPool D C T → ConnectionPool D C T × A
  on_driver f p = (record p { database = (f p.database).0 }, (f p.database).1)

  abbrev pub opened :
      ℕ → ConnectionPool D C T × Option C → ConnectionPool D C T × Outcome PoolError C
  opened id (p, none) = (p, failed connection_failed)
  opened id (p, some c) = (record p { conns = put_id id c p.conns }, done c)

  unfoldable pub get_conn : ℕ → Pool C
  get_conn id p = elim (find_id id p.conns) [
    | some c ↦ (p, done c)
    | none ↦ opened id (on_driver drv.open_conn p)
  ]

  abbrev pub text_or_empty : Option String → String
  text_or_empty none = ""
  text_or_empty (some t) = t

  -- The name, or an empty text without a connection and after an error.
  unfoldable pub current_catalog : ℕ → ConnectionPool D C T → ConnectionPool D C T × String
  current_catalog id p = elim (find_id id p.conns) [
    | none ↦ (p, "")
    | some c ↦
        let (q, t) = on_driver (drv.query_one c "SELECT CURRENT_CATALOG") p in (q, text_or_empty t)
  ]

  abbrev pub executed :
      C → ConnectionPool D C T × Option Bool → ConnectionPool D C T × Outcome PoolError C
  executed c (p, none) = (p, done c)
  executed c (p, some true) = (p, failed database_not_found)
  executed c (p, some false) = (p, failed exec_failed)

  unfoldable pub use_schema : ℕ → C → String → Pool C
  use_schema id c schema p =
      let (q, catalog) = current_catalog id p in
      executed c (on_driver (drv.exec_conn c ("USE " ⋯ full_schema_name catalog schema)) q)

  abbrev pub in_schema :
      ℕ
      → C
      → String
      → ConnectionPool D C T × Option String
      → ConnectionPool D C T × Outcome PoolError C
  in_schema id c schema (p, none) = (p, failed query_failed)
  in_schema id c schema (p, some current) =
      if current == schema then (p, done c) else use_schema id c schema p

  unfoldable pub switch_schema : ℕ → String → C → Pool C
  switch_schema id schema c p =
      if schema == ""
      then (p, done c)
      else in_schema id c schema (on_driver (drv.query_one c "SELECT CURRENT_SCHEMA") p)

  unfoldable pub get_conn_for_schema : ℕ → String → Pool C
  get_conn_for_schema id schema = get_conn id >>= switch_schema id schema

  abbrev pub begun :
      ℕ → ConnectionPool D C T × Option T → ConnectionPool D C T × Outcome PoolError T
  begun id (p, none) = (p, failed begin_failed)
  begun id (p, some t) = (record p { txns = put_id id t p.txns }, done t)

  unfoldable pub begin : ℕ → C → Pool T
  begin id c p = begun id (on_driver (drv.begin_tx c) p)

  unfoldable pub get_txn : ℕ → String → Pool T
  get_txn id schema p = elim (find_id id p.txns) [
    | some t ↦ (p, done t)
    | none ↦ (get_conn_for_schema id schema >>= begin id) p
  ]

  unfoldable pub try_get_txn : ℕ → ConnectionPool D C T → Option T
  try_get_txn id p = find_id id p.txns

  unfoldable pub close_txn : ℕ → ConnectionPool D C T → ConnectionPool D C T
  close_txn id p = record p { txns = delete_id id p.txns }
