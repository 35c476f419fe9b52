-- ===== src/InternalTables.antt =====
-- catalog/internal_tables.go: the SQL statements on an internal table. Without a key column or a value column
-- where the source takes the first, it panics, and there is no statement.
use Prim.Native.String.{String}
use myduckserver.Base.{Option, none, some, List, [], ◌∷◌}
use myduckserver.Delta.Statements.{◌⋯◌}

-- Without the DDL and the initial data.
pub record InternalTable : Type 0 where
  pub schema : String
  pub name : String
  pub key_columns : List String
  pub value_columns : List String

abbrev pub qualified_name : InternalTable → String
qualified_name it = it.schema ⋯ "." ⋯ it.name

-- Each name behind a separator and in front of an end.
unfoldable pub each : String → String → List String → String
each before after [] = ""
each before after (c ∷ cs) = before ⋯ c ⋯ after ⋯ each before after cs

-- The first name, and the others each behind a separator.
abbrev pub listed : String → String → List String → Option String
listed before after [] = none
listed before after (c ∷ cs) = some (c ⋯ after ⋯ each before after cs)

abbrev pub both : (String → String → String) → Option String → Option String → Option String
both f (some s) (some t) = some (f s t)
both f _ _ = none

abbrev pub with_text : (String → String) → Option String → Option String
with_text f none = none
with_text f (some s) = some (f s)

module _ (it : InternalTable) where
  unfoldable pub update_stmt : List String → List String → Option String
  update_stmt keys values =
      both (λ v k. "UPDATE " ⋯ qualified_name it ⋯ " SET " ⋯ v ⋯ " WHERE " ⋯ k)
        (listed ", " " = ?" values) (listed ", " " = ?" keys)

  unfoldable pub update_all_stmt : List String → Option String
  update_all_stmt values =
      with_text (λ v. "UPDATE " ⋯ qualified_name it ⋯ " SET " ⋯ v) (listed ", " " = ?" values)

  abbrev marks : List String → String
  marks [] = ""
  marks (c ∷ cs) = ", ?" ⋯ marks cs

  abbrev upsert_keys : List String → Option String
  upsert_keys [] = none
  upsert_keys (k ∷ ks) = some (marks ks)

  unfoldable pub upsert_stmt : Option String
  upsert_stmt =
      with_text
        (λ k.
          "INSERT OR REPLACE INTO "
          ⋯ qualified_name it
          ⋯ " VALUES (?"
          ⋯ k
          ⋯ marks it.value_columns
          ⋯ ")")
        (upsert_keys it.key_columns)

  -- Nothing stands between the conditions of the source.
  unfoldable pub delete_stmt : Option String
  delete_stmt =
      with_text (λ k. "DELETE FROM " ⋯ qualified_name it ⋯ " WHERE " ⋯ k)
        (listed "" " = ?" it.key_columns)

  unfoldable pub delete_all_stmt : String
  delete_all_stmt = "DELETE FROM " ⋯ qualified_name it

  unfoldable pub select_columns_stmt : List String → Option String
  select_columns_stmt values =
      both (λ v k. "SELECT " ⋯ v ⋯ " FROM " ⋯ qualified_name it ⋯ " WHERE " ⋯ k)
        (listed ", " "" values) (listed " AND " " = ?" it.key_columns)

  unfoldable pub select_stmt : Option String
  select_stmt = select_columns_stmt it.value_columns

  unfoldable pub select_all_stmt : String
  select_all_stmt = "SELECT * FROM " ⋯ qualified_name it

  unfoldable pub count_all_stmt : String
  count_all_stmt = "SELECT COUNT(*)" ⋯ " FROM " ⋯ qualified_name it

-- InternalTables.PgSubscription
abbrev pub pg_subscription : InternalTable
pg_subscription = record {
  schema = "__sys__";
  name = "pg_subscription";
  key_columns = "subname" ∷ [];
  value_columns = "subconninfo" ∷ "subpublication" ∷ "subskiplsn" ∷ "subenabled" ∷ [];
}
