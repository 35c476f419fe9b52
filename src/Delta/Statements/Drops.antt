-- ===== src/Delta/Statements/Drops.antt =====
-- Which statements drop a view.
use Prim.Native.String.{String}
use Prim.Native.Char.{code}
use text.Mathlib.TextLemmas.{cons-append}
use myduckserver.Base.{◌==◌, ◌&&◌, Bool, true, false, not, ◌||◌, List, ◌≡◌, refl, arith}
use myduckserver.Delta.Statements.{
  ◌⋯◌, Column, TableIdentifier, augmented_column_list, itoa, qualified_name, build_column_list,
  get_primary_key_struct, build_condense_delta_sql,
}
use myduckserver.Delta.{insert_row_event, event_code}
use myduckserver.Delta.Statements.Sql.{
  insert_from_view, delete_by_view, upsert_from_view, create_delta, insert_from_delta,
  delete_by_delta,
}

-- Whether a text begins with another one.
abbrev pub begins : String → String → Bool
begins String.[] s = true
begins (String.◌∷◌ c p) String.[] = false
begins (String.◌∷◌ c p) (String.◌∷◌ d s) = code c == code d && begins p s

abbrev pub drops_view : String → Bool
drops_view sql = begins "DROP VIEW" sql

-- Whether two texts differ at a place that both have.
abbrev differs : String → String → Bool
differs String.[] s = false
differs (String.◌∷◌ c p) String.[] = false
differs (String.◌∷◌ c p) (String.◌∷◌ d s) = not (code c == code d) || differs p s

begins-append : (p s t : String) → differs p s ≡ true → begins p (s ⋯ t) ≡ false
begins-append String.[] s t h = cc
begins-append (String.◌∷◌ c p) String.[] t h = cc
begins-append (String.◌∷◌ c p) (String.◌∷◌ d s) t h =
    rw (cons-append d s t) (ground (arith, begins-append p s t))

other_statement : (s t : String) → differs "DROP VIEW" s ≡ true → drops_view (s ⋯ t) ≡ false
other_statement s t h = begins-append "DROP VIEW" s t h

pub drops_view-insert_from_view :
    (t : TableIdentifier) (base : List Column) (v : String)
    → drops_view (insert_from_view t base v) ≡ false
unfolding insert_from_view
drops_view-insert_from_view t base v =
    other_statement "INSERT INTO "
      (qualified_name t ⋯ " SELECT " ⋯ build_column_list base ⋯ " FROM " ⋯ v) refl

pub drops_view-delete_by_view :
    (t : TableIdentifier) (base : List Column) (v : String)
    → drops_view (delete_by_view t base v) ≡ false
unfolding delete_by_view
drops_view-delete_by_view t base v =
    other_statement "DELETE FROM "
      (qualified_name t
        ⋯ " WHERE "
        ⋯ get_primary_key_struct base
        ⋯ " IN (SELECT "
        ⋯ get_primary_key_struct base
        ⋯ " FROM "
        ⋯ v
        ⋯ ")")
      refl

pub drops_view-upsert_from_view :
    (t : TableIdentifier) (base : List Column) (v : String)
    → drops_view (upsert_from_view t base v) ≡ false
unfolding upsert_from_view
drops_view-upsert_from_view t base v =
    other_statement "INSERT OR REPLACE INTO "
      (qualified_name t
        ⋯ " SELECT * EXCLUDE ("
        ⋯ augmented_column_list
        ⋯ ") FROM ("
        ⋯ build_condense_delta_sql v base
        ⋯ ")")
      refl

pub drops_view-create_delta :
    (base : List Column) (v : String) → drops_view (create_delta base v) ≡ false
unfolding create_delta
drops_view-create_delta base v =
    other_statement "CREATE OR REPLACE TEMP TABLE delta AS " (build_condense_delta_sql v base) refl

pub drops_view-replace_from_delta :
    (t : TableIdentifier) → drops_view (insert_from_delta "INSERT OR REPLACE INTO " t) ≡ false
unfolding insert_from_delta
drops_view-replace_from_delta t =
    other_statement "INSERT OR REPLACE INTO "
      (qualified_name t
        ⋯ " SELECT * EXCLUDE ("
        ⋯ augmented_column_list
        ⋯ ") FROM temp.main.delta WHERE action = "
        ⋯ itoa (event_code insert_row_event))
      refl

pub drops_view-insert_from_delta :
    (t : TableIdentifier) → drops_view (insert_from_delta "INSERT INTO " t) ≡ false
unfolding insert_from_delta
drops_view-insert_from_delta t =
    other_statement "INSERT INTO "
      (qualified_name t
        ⋯ " SELECT * EXCLUDE ("
        ⋯ augmented_column_list
        ⋯ ") FROM temp.main.delta WHERE action = "
        ⋯ itoa (event_code insert_row_event))
      refl

pub drops_view-delete_by_delta :
    (t : TableIdentifier) (base : List Column) (condition : String)
    → drops_view (delete_by_delta t base condition) ≡ false
unfolding delete_by_delta
drops_view-delete_by_delta t base condition =
    other_statement "DELETE FROM "
      (qualified_name t
        ⋯ " WHERE "
        ⋯ get_primary_key_struct base
        ⋯ " IN (SELECT "
        ⋯ get_primary_key_struct base
        ⋯ "FROM temp.main.delta"
        ⋯ condition
        ⋯ ")")
      refl
