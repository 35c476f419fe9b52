-- ===== src/Samples/Pools.antt =====
-- A driver of a database that stores a position, and a pool on it.
use Prim.Native.String.{String}
use myduckserver.Base.{ℕ, suc, Bool, List, true, none, some, [], ◌∷◌, done, ◌≡◌, refl, arith}
use myduckserver.Base.Actions.{◌>>=◌}
use myduckserver.ConnPool.{
  Driver, ConnectionPool, get_conn, switch_schema, get_conn_for_schema, begin, get_txn, try_get_txn,
  close_txn,
}
use myduckserver.ConnPool.Handles.{get_txn-again}

-- The position that is stored and the one that the open transaction has written.
record Positions : Type 0 where
  stored : ℕ
  pending : ℕ

abbrev count_strokes : String → ℕ
count_strokes String.[] = 0
count_strokes (String.◌∷◌ c s) = suc (count_strokes s)

-- A statement with arguments writes the first as the position.
abbrev write : List String → Positions → Positions × Bool
write [] d = (d, true)
write (l ∷ _) d = (record d { pending = count_strokes l }, true)

abbrev driver : Driver Positions ℕ ℕ
driver = record {
  open_conn = λ d. (d, some 3);
  query_one = λ c q d. (d, some "main");
  exec_conn = λ c q d. (d, none);
  begin_tx = λ c d. (record d { pending = d.stored }, some 5);
  exec_tx = λ t q args d. write args d;
  commit_tx = λ t d. (record d { stored = d.pending }, true);
  rollback_tx = λ t d. (record d { pending = d.stored }, true);
}

abbrev pool : ConnectionPool Positions ℕ ℕ
pool = record { database = record { stored = 9; pending = 9 }; conns = []; txns = (2, 4) ∷ [] }

abbrev pool_with_txn : ConnectionPool Positions ℕ ℕ
pool_with_txn = record {
  database = pool.database;
  conns = (1, 3) ∷ [];
  txns = (2, 4) ∷ (1, 5) ∷ [];
}

get_txn-again_example :
    (try_get_txn driver 1 pool_with_txn ≡ some 5)
    × (get_txn driver 1 "main" pool_with_txn ≡ (pool_with_txn, done 5))
    × (try_get_txn driver 1 (close_txn driver 1 pool_with_txn) ≡ none)
    × (try_get_txn driver 2 pool_with_txn ≡ try_get_txn driver 2 pool)
unfolding get_txn get_conn_for_schema get_conn switch_schema begin ◌>>=◌
get_txn-again_example =
    get_txn-again driver 1 2 "main" "main" pool pool_with_txn 5 (omega arith) refl
