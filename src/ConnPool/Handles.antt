-- ===== src/ConnPool/Handles.antt =====
-- Which transaction the pool hands out.
use Prim.Native.String.{String}
use text.Mathlib.Text.{◌==◌}
use myduckserver.Base.{
  if_both, Bool, true, false, List, ℕ, Option, none, some, Outcome, done, failed, panicked, ◌≡◌,
  ◌≢◌, ◌⊎◌, inl, inr, sym, refl, ap, ◌∙◌,
}
use myduckserver.Base.Maps.{
  find_id, put_id, find_id-put_id, find_id-put_id_other, find_id-delete_id,
}
use myduckserver.Base.Actions.{continue, Keeps, >>=-Keeps, ◌>>=◌}
use myduckserver.ConnPool.{
  Driver, PoolError, text_or_empty, on_driver, ConnectionPool, opened, get_conn, current_catalog,
  executed, use_schema, in_schema, switch_schema, get_conn_for_schema, begun, begin, get_txn,
  try_get_txn, close_txn,
}

-- What the calls of the driver and a new connection keep, every part of get_conn_for_schema keeps.
module _ {D C T : Type 0} (drv : Driver D C T) (P : ConnectionPool D C T → Type 0)
    (keeps_open : (p : ConnectionPool D C T)
      → P p
      → P (record p { database = (drv.open_conn p.database).0 }))
    (keeps_query : (c : C) (q : String) (p : ConnectionPool D C T)
      → P p
      → P (record p { database = (drv.query_one c q p.database).0 }))
    (keeps_exec : (c : C) (q : String) (p : ConnectionPool D C T)
      → P p
      → P (record p { database = (drv.exec_conn c q p.database).0 }))
    (keeps_conns : (cs : List (ℕ × C)) (p : ConnectionPool D C T)
      → P p
      → P (record p { conns = cs })) where
  opened-keeps : (id : ℕ) (o : ConnectionPool D C T × Option C) → P o.0 → P (opened drv id o).0
  opened-keeps id (p, none) h = h
  opened-keeps id (p, some c) h = keeps_conns (put_id id c p.conns) p h

  pub get_conn-Keeps : (id : ℕ) → Keeps P (get_conn drv id)
  unfolding get_conn
  get_conn-Keeps id = record { keeps = λ p h. by_entry p h (find_id id p.conns) }
    where
      by_entry :
          (p : ConnectionPool D C T)
          → P p
          → (o : Option C)
          → P
              (elim o as (λ o. ConnectionPool D C T × Outcome PoolError C) [
                | some c ↦ (p, done c)
                | none ↦ opened drv id (
                  record p { database = (drv.open_conn p.database).0 },
                  (drv.open_conn p.database).1,
                )
              ]).0
      by_entry p h (some c) = h
      by_entry p h none = opened-keeps id _ (keeps_open p h)

  current_catalog-keeps : (id : ℕ) (p : ConnectionPool D C T) → P p → P (current_catalog drv id p).0
  unfolding current_catalog
  current_catalog-keeps id p h = by_entry (find_id id p.conns)
    where
      by_entry :
          (o : Option C)
          → P
              (elim o as (λ o. ConnectionPool D C T × String) [
                | none ↦ (p, "")
                | some c ↦ (
                  record p { database = (drv.query_one c "SELECT CURRENT_CATALOG" p.database).0 },
                  text_or_empty drv (drv.query_one c "SELECT CURRENT_CATALOG" p.database).1,
                )
              ]).0
      by_entry none = h
      by_entry (some c) = keeps_query c "SELECT CURRENT_CATALOG" p h

  executed-keeps : (c : C) (o : ConnectionPool D C T × Option Bool) → P o.0 → P (executed drv c o).0
  executed-keeps c (p, none) h = h
  executed-keeps c (p, some true) h = h
  executed-keeps c (p, some false) h = h

  use_schema-keeps :
      (id : ℕ) (c : C) (schema : String) (p : ConnectionPool D C T)
      → P p
      → P (use_schema drv id c schema p).0
  unfolding use_schema
  use_schema-keeps id c schema p h =
      executed-keeps c _ (keeps_exec c _ _ (current_catalog-keeps id p h))

  in_schema-keeps :
      (id : ℕ) (c : C) (schema : String) (o : ConnectionPool D C T × Option String)
      → P o.0
      → P (in_schema drv id c schema o).0
  in_schema-keeps id c schema (p, none) h = h
  in_schema-keeps id c schema (p, some current) h =
      if_both (λ (o : ConnectionPool D C T × Outcome PoolError C). P o.0) (current == schema)
        {x = (p, done c)} {y = use_schema drv id c schema p} h (use_schema-keeps id c schema p h)

  pub get_conn_for_schema-Keeps :
      (id : ℕ) (schema : String) → Keeps P (get_conn_for_schema drv id schema)
  unfolding get_conn_for_schema switch_schema
  get_conn_for_schema-Keeps id schema = >>=-Keeps (get_conn-Keeps id) (λ c. record {
    keeps = λ p h.
        (let asked = drv.query_one c "SELECT CURRENT_SCHEMA" p.database in
          let at : ConnectionPool D C T × Option String =
            (record p { database = asked.0 }, asked.1) in
          if_both (λ (o : ConnectionPool D C T × Outcome PoolError C). P o.0) (schema == "")
            {x = (p, done c)} {y = in_schema drv id c schema at} h
            (in_schema-keeps id c schema at (keeps_query c "SELECT CURRENT_SCHEMA" p h)));
  })

module _ {D C T : Type 0} (drv : Driver D C T) (id : ℕ) (ts : List (ℕ × T))
    (q : ConnectionPool D C T) (t : T) where
  begun-txns :
      (o : ConnectionPool D C T × Option T)
      → o.0.txns ≡ ts
      → begun drv id o ≡ (q, done t)
      → q.txns ≡ put_id id t ts
  begun-txns (p, none) h e = cc
  begun-txns (p, some u) h e = cc

  begin-txns :
      (o : ConnectionPool D C T × Outcome PoolError C)
      → o.0.txns ≡ ts
      → continue (begin drv id) o ≡ (q, done t)
      → q.txns ≡ put_id id t ts
  unfolding begin
  begin-txns (p, done c) h e = begun-txns (on_driver drv (drv.begin_tx c) p) h e
  begin-txns (p, failed _) h e = cc
  begin-txns (p, panicked) h e = cc

module _ {D C T : Type 0} (drv : Driver D C T) (id : ℕ) (schema : String)
    (p q : ConnectionPool D C T) (t : T) where
  -- Either the transaction was there, or it is the only one that is new.
  get_txn-txns :
      get_txn drv id schema p ≡ (q, done t)
      → ((p ≡ q) × (find_id id p.txns ≡ some t)) ⊎ (q.txns ≡ put_id id t p.txns)
  unfolding get_txn ◌>>=◌
  get_txn-txns h = by_entry (find_id id p.txns) refl h
    where
      by_entry :
          (o : Option T)
          → find_id id p.txns ≡ o
          → (elim o as (λ o. ConnectionPool D C T × Outcome PoolError T) [
            | some u ↦ (p, done u)
            | none ↦ continue (begin drv id) (get_conn_for_schema drv id schema p)
          ])
            ≡ (q, done t)
          → ((p ≡ q) × (find_id id p.txns ≡ some t)) ⊎ (q.txns ≡ put_id id t p.txns)
      by_entry (some u) f e = inl (cc, cc)
      by_entry none f e =
          let k =
            get_conn_for_schema-Keeps drv (λ r. r.txns ≡ p.txns) (λ r h. h) (λ c s r h. h)
              (λ c s r h. h) (λ cs r h. h) id schema in
          inr
            (begin-txns drv id p.txns q t (get_conn_for_schema drv id schema p) (k.keeps p refl) e)

-- Once GetTxn has returned a transaction for a session, TryGetTxn finds it and GetTxn returns it again without a
-- change, for any schema, until CloseTxn, after which TryGetTxn finds none; and what TryGetTxn finds for any
-- other session is as before.
pub get_txn-again :
    {D C T : Type 0} (drv : Driver D C T) (id other : ℕ) (schema schema' : String)
    (p q : ConnectionPool D C T) (t : T)
    → other ≢ id
    → get_txn drv id schema p ≡ (q, done t)
    → (try_get_txn drv id q ≡ some t)
      × (get_txn drv id schema' q ≡ (q, done t))
      × (try_get_txn drv id (close_txn drv id q) ≡ none)
      × (try_get_txn drv other q ≡ try_get_txn drv other p)
unfolding get_txn try_get_txn close_txn
get_txn-again drv id other schema schema' p q t n h =
    let found : (find_id id q.txns ≡ some t) × (find_id other q.txns ≡ find_id other p.txns) =
      elim (get_txn-txns drv id schema p q t h) [
        | inl (e, f) ↦
            (ap (λ r. find_id id r.txns) (sym e) ∙ f, ap (λ r. find_id other r.txns) (sym e))
        | inr e ↦ (
          ap (find_id id) e ∙ find_id-put_id id t p.txns,
          ap (find_id other) e ∙ find_id-put_id_other id other t p.txns n,
        )
      ] in
    (found.0, rw (get_txn, found.0) refl, find_id-delete_id id q.txns, found.1)
