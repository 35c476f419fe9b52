-- ===== src/Delta/Statements/Sql.antt =====
-- The statements of the five flush handlers of delta/controller.go.
use Prim.Native.String.{String}
use myduckserver.Base.{List}
use myduckserver.Delta.{delete_row_event, insert_row_event, event_code}
use myduckserver.Delta.Statements.{
  ◌⋯◌, Column, TableIdentifier, augmented_column_list, itoa, qualified_name, build_column_list,
  get_primary_key_struct, build_condense_delta_sql,
}

unfoldable pub insert_from_view : TableIdentifier → List Column → String → String
unfolding qualified_name build_column_list
insert_from_view table base view_name =
    "INSERT INTO "
    ⋯ qualified_name table
    ⋯ " SELECT "
    ⋯ build_column_list base
    ⋯ " FROM "
    ⋯ view_name

unfoldable pub delete_by_view : TableIdentifier → List Column → String → String
unfolding qualified_name get_primary_key_struct
delete_by_view table base view_name =
    let pk = get_primary_key_struct base in
    "DELETE FROM "
    ⋯ qualified_name table
    ⋯ " WHERE "
    ⋯ pk
    ⋯ " IN (SELECT "
    ⋯ pk
    ⋯ " FROM "
    ⋯ view_name
    ⋯ ")"

unfoldable pub upsert_from_view : TableIdentifier → List Column → String → String
unfolding qualified_name augmented_column_list build_condense_delta_sql
upsert_from_view table base view_name =
    "INSERT OR REPLACE INTO "
    ⋯ qualified_name table
    ⋯ " SELECT * EXCLUDE ("
    ⋯ augmented_column_list
    ⋯ ") FROM ("
    ⋯ build_condense_delta_sql view_name base
    ⋯ ")"

unfoldable pub create_delta : List Column → String → String
unfolding build_condense_delta_sql
create_delta base view_name =
    "CREATE OR REPLACE TEMP TABLE delta AS " ⋯ build_condense_delta_sql view_name base

-- "INSERT OR REPLACE INTO " in the general case, "INSERT INTO " without an index
unfoldable pub insert_from_delta : String → TableIdentifier → String
unfolding qualified_name augmented_column_list itoa event_code
insert_from_delta verb table =
    verb
    ⋯ qualified_name table
    ⋯ " SELECT * EXCLUDE ("
    ⋯ augmented_column_list
    ⋯ ") FROM temp.main.delta WHERE action = "
    ⋯ itoa (event_code insert_row_event)

-- The text has no space between the tuple and FROM, as the source has none.
unfoldable pub delete_by_delta : TableIdentifier → List Column → String → String
unfolding qualified_name get_primary_key_struct
delete_by_delta table base condition =
    let tuple = get_primary_key_struct base in
    "DELETE FROM "
    ⋯ qualified_name table
    ⋯ " WHERE "
    ⋯ tuple
    ⋯ " IN (SELECT "
    ⋯ tuple
    ⋯ "FROM temp.main.delta"
    ⋯ condition
    ⋯ ")"

-- " WHERE action = " and the number of a delete
unfoldable pub where_deleted : String
unfolding itoa event_code
where_deleted = " WHERE action = " ⋯ itoa (event_code delete_row_event)

abbrev pub drop_delta : String
drop_delta = "DROP TABLE IF EXISTS temp.main.delta"

abbrev pub drop_view : String → String
drop_view view_name = "DROP VIEW IF EXISTS " ⋯ view_name
