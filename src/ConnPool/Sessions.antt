-- ===== src/ConnPool/Sessions.antt =====
-- The session that the replicator of PostgreSQL uses (adapter/adapter.go and backend/session.go) on the pool, and
-- UpdateSubscriptionLsn of pgserver/logrepl/subscription.go.
use Prim.Native.String.{String}
use myduckserver.Base.{
  ℕ, Bool, true, false, Option, none, some, List, [], ◌∷◌, Outcome, done, failed, panicked,
}
use myduckserver.Base.Actions.{Action, Nothing, ◌>>=◌}
use myduckserver.ConnPool.{
  Driver, PoolError, exec_failed, ConnectionPool, on_driver, get_conn, get_txn, try_get_txn,
  close_txn,
}
use myduckserver.InternalTables.{update_stmt, pg_subscription}
use myduckserver.Logrepl.Session.{Session}

-- InternalTables.PgSubscription.UpdateStmt(keyColumns, lsnValueColumns)
abbrev written : Option String → String
written none = ""
written (some t) = t

unfoldable pub update_lsn_stmt : String
update_lsn_stmt = written (update_stmt pg_subscription ("subname" ∷ []) ("subskiplsn" ∷ []))

module _ {D C T : Type 0} (drv : Driver D C T) where
  abbrev pub succeeded {ℓ} :
      {A : Type ℓ} → ConnectionPool D C T × Outcome PoolError A → ConnectionPool D C T × Bool
  succeeded (p, done _) = (p, true)
  succeeded (p, failed _) = (p, false)
  succeeded (p, panicked) = (p, false)

  abbrev pub conn_result :
      ConnectionPool D C T × Option Bool → ConnectionPool D C T × Outcome PoolError Nothing
  conn_result (p, none) = (p, done tt)
  conn_result (p, some _) = (p, failed exec_failed)

  abbrev pub tx_result :
      ConnectionPool D C T × Bool → ConnectionPool D C T × Outcome PoolError Nothing
  tx_result (p, true) = (p, done tt)
  tx_result (p, false) = (p, failed exec_failed)

  -- conn.ExecContext and tx.ExecContext
  unfoldable pub exec_on : String → C → Action (ConnectionPool D C T) PoolError Nothing
  exec_on sql c p = conn_result (on_driver drv (drv.exec_conn c sql) p)

  unfoldable pub exec_within :
      String → List String → T → Action (ConnectionPool D C T) PoolError Nothing
  exec_within sql args t p = tx_result (on_driver drv (drv.exec_tx t sql args) p)

  -- ExecCatalog, and ExecInTxn with ExecCatalogInTxn, which differ in the schema
  unfoldable pub exec_catalog : ℕ → String → Action (ConnectionPool D C T) PoolError Nothing
  exec_catalog id sql = get_conn drv id >>= exec_on sql

  unfoldable pub exec_in_txn :
      ℕ → String → String → List String → Action (ConnectionPool D C T) PoolError Nothing
  exec_in_txn id schema sql args = get_txn drv id schema >>= exec_within sql args

  -- The session with an id and a current database, of the subscription `name`; `lsn_text` is LSN.String.
  unfoldable pub session : ℕ → String → String → (ℕ → String) → Session (ConnectionPool D C T) T
  session id current_database name lsn_text = record {
    get_catalog_conn = λ p. succeeded (get_conn drv id p);
    get_catalog_txn = λ p. succeeded (get_txn drv id "" p);
    try_get_txn = try_get_txn drv id;
    close_txn = close_txn drv id;
    commit = λ t. on_driver drv (drv.commit_tx t);
    rollback = λ t. on_driver drv (drv.rollback_tx t);
    exec_catalog = λ sql p. succeeded (exec_catalog id sql p);
    exec_in_txn = λ sql p. succeeded (exec_in_txn id current_database sql [] p);
    update_subscription_lsn =
        λ l p. succeeded (exec_in_txn id "" update_lsn_stmt (lsn_text l ∷ name ∷ []) p);
  }
