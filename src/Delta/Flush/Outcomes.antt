-- ===== src/Delta/Flush/Outcomes.antt =====
-- What the handlers leave of the buffered rows, whatever the database answers.
use Prim.Native.String.{String}
use myduckserver.Base.{ℕ, Bool, true, false, none, some, List, ◌≡◌, refl, ◌∙◌, arith}
use myduckserver.Delta.{Plan, insert_only, delete_only, zero_delete, without_index, general_case}
use myduckserver.Delta.Statements.{Column, TableIdentifier}
use myduckserver.Delta.Flush.{
  Engine, Work, FlushStats, Result, and_then, run_statement, deferred, close_view, view_name,
  viewed, with_view, with_statement, two_statements,
}
use myduckserver.Delta.Flush.Handlers.{
  handle_insert_only, handle_delete_only, handle_zero_delete, materialize_condensed_delta,
  handle_general_case, handle_without_index, run_plan,
}

module _ {D B R : Type 0} (e : Engine D B R) where
  abbrev Keeps : (Work D B → Result e) → Type 0
  Keeps f = (w : Work D B) → (f w).0.builder ≡ w.builder

  run_statement-Keeps :
      (sql : String) (add : ℕ → FlushStats → FlushStats) → Keeps (run_statement e sql add)
  unfolding run_statement
  run_statement-Keeps sql add w = ground arith

  and_then-builder :
      (r : Result e) (f : Work D B → Result e) → Keeps f → (and_then e r f).0.builder ≡ r.0.builder
  and_then-builder (w, none) f k = k w
  and_then-builder (w, some x) f k = refl

  deferred-builder : (sql : String) (r : Result e) → (deferred e sql r).0.builder ≡ r.0.builder
  unfolding deferred
  deferred-builder sql (w, x) = refl

  close_view-builder :
      (view : String) (r : Result e) → (close_view e view r).0.builder ≡ r.0.builder
  unfolding close_view
  close_view-builder view (w, x) = refl

  viewed-builder :
      (view : String) (b : B) (body : Work D B → Result e) (w : Work D B) (o : D × Bool)
      → Keeps body
      → (viewed e view b body w o).0.builder ≡ b
  viewed-builder view b body w (d, true) k =
      close_view-builder view _ ∙ k (record w { database = d; builder = b })
  viewed-builder view b body w (d, false) k = refl

  with_view-builder :
      (t : TableIdentifier) (offset : ℕ) (indices : List ℕ) (body : String → Work D B → Result e)
      (w : Work D B)
      → ((view : String) → Keeps (body view))
      → (with_view e t offset indices body w).0.builder ≡ (e.build w.builder).1
  unfolding with_view
  with_view-builder t offset indices body w k =
      viewed-builder (view_name e t) _ (body (view_name e t)) w _ (k (view_name e t))

  with_statement-builder :
      (t : TableIdentifier) (offset : ℕ) (indices : List ℕ) (sql : String → String)
      (add : ℕ → FlushStats → FlushStats) (w : Work D B)
      → (with_statement e t offset indices sql add w).0.builder ≡ (e.build w.builder).1
  unfolding with_statement
  with_statement-builder t offset indices sql add w =
      with_view-builder t offset indices (λ view. run_statement e (sql view) add) w
        (λ view. run_statement-Keeps (sql view) add)

  condensed-builder :
      (t : TableIdentifier) (base : List Column) (w : Work D B)
      → (materialize_condensed_delta e t base w).0.builder ≡ (e.build w.builder).1
  unfolding materialize_condensed_delta
  condensed-builder t base w = with_statement-builder t _ _ _ _ w

  two_statements-Keeps :
      (sql sql' : String) (add add' : ℕ → FlushStats → FlushStats) (last : String)
      → Keeps (two_statements e sql add sql' add' last)
  unfolding two_statements
  two_statements-Keeps sql sql' add add' last w =
      deferred-builder last (and_then e (run_statement e sql add w) (run_statement e sql' add'))
      ∙ and_then-builder (run_statement e sql add w) (run_statement e sql' add')
          (run_statement-Keeps sql' add')
      ∙ run_statement-Keeps sql add w

  condensed_then-builder :
      (t : TableIdentifier) (base : List Column) (f : Work D B → Result e) (w : Work D B)
      → Keeps f
      → (and_then e (materialize_condensed_delta e t base w) f).0.builder ≡ (e.build w.builder).1
  condensed_then-builder t base f w k =
      and_then-builder (materialize_condensed_delta e t base w) f k ∙ condensed-builder t base w

  -- Whatever a handler's statements answer, the builder is the one that Build leaves.
  pub run_plan-builder :
      (p : Plan) (t : TableIdentifier) (base : List Column) (w : Work D B)
      → (run_plan e p t base w).0.builder ≡ (e.build w.builder).1
  unfolding run_plan handle_insert_only handle_delete_only handle_zero_delete handle_general_case
      handle_without_index
  run_plan-builder insert_only t base w = with_statement-builder t _ _ _ _ w
  run_plan-builder delete_only t base w = with_statement-builder t _ _ _ _ w
  run_plan-builder zero_delete t base w = with_statement-builder t _ _ _ _ w
  run_plan-builder without_index t base w =
      condensed_then-builder t base _ w (two_statements-Keeps _ _ _ _ _)
  run_plan-builder general_case t base w =
      condensed_then-builder t base _ w (two_statements-Keeps _ _ _ _ _)
