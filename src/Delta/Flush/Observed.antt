-- ===== src/Delta/Flush/Observed.antt =====
-- What every flush keeps of the database, also one that fails at any statement.
use Prim.Native.String.{String}
use myduckserver.Base.{
  ℕ, Bool, true, false, Option, none, some, ltb, if◌then◌else◌, List, [], ◌∷◌, ◌≡◌, refl, ◌∙◌,
}
use myduckserver.Delta.{
  FlushReason, Plan, insert_only, delete_only, zero_delete, without_index, general_case,
  choose_plan,
}
use myduckserver.Delta.Statements.{Column, TableIdentifier}
use myduckserver.Delta.Statements.Sql.{where_deleted, drop_delta, drop_view}
use myduckserver.Delta.Statements.Drops.{
  drops_view, drops_view-insert_from_view, drops_view-delete_by_view, drops_view-upsert_from_view,
  drops_view-create_delta, drops_view-replace_from_delta, drops_view-insert_from_delta,
  drops_view-delete_by_delta,
}
use myduckserver.Delta.Flush.{
  Engine, Appender, Work, FlushStats, FlushError, Flushed, no_stats, Result, and_then, counted,
  run_statement, deferred, close_view, view_name, project, viewed, with_view, with_statement,
  two_statements,
}
use myduckserver.Delta.Flush.Handlers.{
  handle_insert_only, handle_delete_only, handle_zero_delete, materialize_condensed_delta,
  handle_general_case, handle_without_index, run_plan, Updated, update_table,
}
use myduckserver.Delta.Flush.Controller.{
  Tables, rows, go_on, stop, update_rows, flush_tables, flush,
}

-- What holds of a database without a view, `N`, and of one with the view `v`, `M v`: what registers a view leads
-- from the one to the other, its end back, and a statement that drops no view keeps both.
pub record ViewLaws {D B R : Type 0} (e : Engine D B R) (N : D → Type 0) (M : String → D → Type 0)
    : Type 0 where
  pub exec : (sql : String) (d : D) → drops_view sql ≡ false → N d → N (e.exec sql d).0
  pub exec_viewed : (v sql : String) (d : D) → drops_view sql ≡ false → M v d → M v (e.exec sql d).0
  pub registered :
      (v : String) (r : R) (d : D) → (e.register v r d).1 ≡ true → N d → M v (e.register v r d).0
  pub unregistered :
      (v : String) (r : R) (d : D) → (e.register v r d).1 ≡ false → N d → N (e.register v r d).0
  pub closed : (v : String) (d : D) → M v d → N (e.release v (e.exec (drop_view v) d).0)

module _ {D B R : Type 0} (e : Engine D B R) where
  module _ (I : D → Type 0)
      (exec : (sql : String) (d : D) → drops_view sql ≡ false → I d → I (e.exec sql d).0) where
    run_statement_lem :
        (sql : String) (add : ℕ → FlushStats → FlushStats) (w : Work D B)
        → drops_view sql ≡ false
        → I w.database
        → I (run_statement e sql add w).0.database
    unfolding run_statement
    run_statement_lem sql add w s h = counted_lem _ (exec sql w.database s h)
      where
        counted_lem : (q : D × Option ℕ) → I q.0 → I (counted e add w q).0.database
        counted_lem (d, none) k = k
        counted_lem (d, some n) k = k

    deferred_lem :
        (sql : String) (r : Result e)
        → drops_view sql ≡ false
        → I r.0.database
        → I (deferred e sql r).0.database
    unfolding deferred
    deferred_lem sql (w, x) s h = exec sql w.database s h

    and_then_lem :
        (r : Result e) (g : Work D B → Result e)
        → ((w : Work D B) → I w.database → I (g w).0.database)
        → I r.0.database
        → I (and_then e r g).0.database
    and_then_lem (w, none) g k h = k w h
    and_then_lem (w, some x) g k h = h

  module _ (N : D → Type 0) (M : String → D → Type 0) (laws : ViewLaws e N M) where
    abbrev Keeps : (Work D B → Result e) → Type 0
    Keeps g = (w : Work D B) → N w.database → N (g w).0.database

    viewed_lem :
        (view : String) (b : B) (body : Work D B → Result e) (w : Work D B) (o : D × Bool)
        → ((w' : Work D B) → M view w'.database → M view (body w').0.database)
        → (o.1 ≡ true → M view o.0)
        → (o.1 ≡ false → N o.0)
        → N (viewed e view b body w o).0.database
    unfolding close_view
    viewed_lem view b body w (d, true) k h j =
        laws.closed view (body (record w { database = d; builder = b })).0.database
          (k (record w { database = d; builder = b }) (h refl))
    viewed_lem view b body w (d, false) k h j = j refl

    with_statement-Keeps :
        (t : TableIdentifier) (offset : ℕ) (indices : List ℕ) (sql : String → String)
        (add : ℕ → FlushStats → FlushStats)
        → ((v : String) → drops_view (sql v) ≡ false)
        → Keeps (with_statement e t offset indices sql add)
    unfolding with_statement with_view
    with_statement-Keeps t offset indices sql add s w n =
        let view = view_name e t in
        let built = e.build w.builder in
        let r = project e offset indices built.0 in
        viewed_lem view built.1 (run_statement e (sql view) add) w (e.register view r w.database)
          (λ w' h. run_statement_lem (M view) (laws.exec_viewed view) (sql view) add w' (s view) h)
          (λ q. laws.registered view r w.database q n)
          (λ q. laws.unregistered view r w.database q n)

    two_statements-Keeps :
        (sql sql' : String) (add add' : ℕ → FlushStats → FlushStats)
        → drops_view sql ≡ false
        → drops_view sql' ≡ false
        → Keeps (two_statements e sql add sql' add' drop_delta)
    unfolding two_statements
    two_statements-Keeps sql sql' add add' s s' w n =
        deferred_lem N laws.exec drop_delta
          (and_then e (run_statement e sql add w) (run_statement e sql' add')) refl
          (and_then_lem N laws.exec (run_statement e sql add w) (run_statement e sql' add')
            (λ w' h. run_statement_lem N laws.exec sql' add' w' s' h)
            (run_statement_lem N laws.exec sql add w s n))

    condensed_then-Keeps :
        (t : TableIdentifier) (base : List Column) (g : Work D B → Result e)
        → Keeps g
        → Keeps (λ w. and_then e (materialize_condensed_delta e t base w) g)
    unfolding materialize_condensed_delta
    condensed_then-Keeps t base g k w n =
        and_then_lem N laws.exec (materialize_condensed_delta e t base w) g k
          (with_statement-Keeps t _ _ _ _ (drops_view-create_delta base) w n)

    run_plan-Keeps :
        (p : Plan) (t : TableIdentifier) (base : List Column) → Keeps (run_plan e p t base)
    unfolding run_plan handle_insert_only handle_delete_only handle_zero_delete handle_general_case
        handle_without_index
    run_plan-Keeps insert_only t base =
        with_statement-Keeps t _ _ _ _ (drops_view-insert_from_view t base)
    run_plan-Keeps delete_only t base =
        with_statement-Keeps t _ _ _ _ (drops_view-delete_by_view t base)
    run_plan-Keeps zero_delete t base =
        with_statement-Keeps t _ _ _ _ (drops_view-upsert_from_view t base)
    run_plan-Keeps without_index t base = condensed_then-Keeps t base _ (
        two_statements-Keeps _ _ _ _ (drops_view-delete_by_delta t base "")
          (drops_view-insert_from_delta t))
    run_plan-Keeps general_case t base = condensed_then-Keeps t base _ (
        two_statements-Keeps _ _ _ _ (drops_view-replace_from_delta t)
          (drops_view-delete_by_delta t base where_deleted))

    update_table_lem :
        (no_index tx : Bool) (t : TableIdentifier) (a : Appender B) (d : D) (s : FlushStats)
        → N d
        → N (update_table e no_index tx t a d s).1
    unfolding update_table
    update_table_lem no_index true t a d s n =
        run_plan-Keeps (choose_plan no_index a.counters) t a.base
          (record { database = d; builder = a.builder; stats = s }) n
    update_table_lem no_index false t a d s n = n

    update_rows_lem :
        (no_index tx : Bool) (t : TableIdentifier) (a : Appender B) (d : D) (s : FlushStats)
        → N d
        → N (update_rows e no_index tx t a d s).1
    unfolding update_rows
    update_rows_lem no_index tx t a d s n =
        by_rows (ltb 0 (e.row_count a.builder)) _ (update_table_lem no_index tx t a d s n)
      where
        by_rows : (b : Bool) (u : Updated e) → N u.1 → N (if b then u else (a, d, s, none)).1
        by_rows true u h = h
        by_rows false u h = n

    -- A table's outcome, and the rest of the tables where there was no error.
    by_error :
        (reason : FlushReason) (t : TableIdentifier) (a a' : Appender B) (ts : Tables B) (d : D)
        (s : FlushStats) (rest : Flushed D B) (x : Option FlushError)
        → N rest.database
        → N d
        → let f : Flushed D B = elim x [
          | none ↦ go_on e reason t (rows e a) a' rest
          | some err ↦ stop e t a' ts d s err
        ] in
          N f.database
    by_error reason t a a' ts d s rest none h k = h
    by_error reason t a a' ts d s rest (some err) h k = k

    flush_tables_lem :
        (no_index tx : Bool) (reason : FlushReason) (ts : Tables B) (d : D) (s : FlushStats)
        → N d
        → N (flush_tables e no_index tx reason ts d s).database
    unfolding flush_tables
    flush_tables_lem no_index tx reason [] d s n = n
    flush_tables_lem no_index tx reason ((t, a) ∷ ts) d s n =
        let u = update_rows e no_index tx t a d s in
        let k = update_rows_lem no_index tx t a d s n in
        by_error reason t a u.0 ts u.1 u.2 (flush_tables e no_index tx reason ts u.1 u.2) u.3
          (flush_tables_lem no_index tx reason ts u.1 u.2 k) k

    pub flush_lem :
        (no_index tx : Bool) (reason : FlushReason) (ts : Tables B) (d : D)
        → N d
        → N (flush e no_index tx reason ts d).database
    unfolding flush
    flush_lem no_index tx reason ts d n = flush_tables_lem no_index tx reason ts d no_stats n

-- What no statement, registration or release changes is the same behind a flush.
pub flush_same :
    {D B R X : Type 0} (e : Engine D B R) (f : D → X)
    → ((sql : String) (d : D) → f (e.exec sql d).0 ≡ f d)
    → ((v : String) (r : R) (d : D) → f (e.register v r d).0 ≡ f d)
    → ((v : String) (d : D) → f (e.release v d) ≡ f d)
    → (no_index tx : Bool) (reason : FlushReason) (ts : Tables B) (d : D)
    → f (flush e no_index tx reason ts d).database ≡ f d
flush_same e f exec register release no_index tx reason ts d =
    let laws : ViewLaws e (λ z. f z ≡ f d) (λ _ z. f z ≡ f d) = record {
      exec = λ sql z _ h. exec sql z ∙ h;
      exec_viewed = λ v sql z _ h. exec sql z ∙ h;
      registered = λ v r z _ h. register v r z ∙ h;
      unregistered = λ v r z _ h. register v r z ∙ h;
      closed = λ v z h. release v (e.exec (drop_view v) z).0 ∙ exec (drop_view v) z ∙ h;
    } in
    flush_lem e (λ z. f z ≡ f d) (λ _ z. f z ≡ f d) laws no_index tx reason ts d refl
