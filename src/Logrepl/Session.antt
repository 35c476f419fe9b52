-- ===== src/Logrepl/Session.antt =====
-- What the replicator asks of the session of adapter/ and of database/sql: the transaction of the
-- connection pool, the statements, and the stored position.
use Prim.Native.String.{String}
use myduckserver.Base.{ℕ, Bool, Option}

-- A database `D` and a transaction handle `T`. A Boolean is whether the call succeeds.
pub record Session (D T : Type 0) : Type 0 where
  pub get_catalog_conn : D → D × Bool
  pub get_catalog_txn : D → D × Bool
  pub try_get_txn : D → Option T
  pub close_txn : D → D
  pub commit : T → D → D × Bool
  pub rollback : T → D → D × Bool
  pub exec_catalog : String → D → D × Bool
  pub exec_in_txn : String → D → D × Bool
  -- UpdateSubscriptionLsn of pgserver/logrepl/subscription.go
  pub update_subscription_lsn : ℕ → D → D × Bool
