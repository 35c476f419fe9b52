-- ===== src/Filtering.antt =====
-- binlogreplication/binlog_replica_filtering.go: the replication filters of a replica, and the decision
-- whether a table's events are skipped.
--
-- A Go map from names is a list of pairs or names in which each key stands once; its order is that of
-- insertion, where Go promises none. strings.ToLower is the parameter `lower`. The mutex makes each
-- operation one step.
mod Sets
pub mod Decision
use Prim.Native.String.{String, ◌++◌ as append}
use text.Mathlib.Text.{◌==◌}
use myduckserver.Base.{
  Bool, true, false, ◌&&◌, ◌||◌, not, if◌then◌else◌, Option, none, some, List, [], ◌∷◌, ◌++◌, map,
  Outcome, done, failed,
}

-- map[string]struct{}
abbrev pub NameSet : Type 0
NameSet = List String

-- map[string]map[string]struct{}
abbrev pub TableSet : Type 0
TableSet = List (String × NameSet)

pub record FilterConfiguration : Type 0 where
  pub do_databases : NameSet
  pub ignore_databases : NameSet
  pub do_tables : TableSet
  pub ignore_tables : TableSet

-- sql.UnresolvedTable: the name and the database, which is empty in an unqualified name
pub record UnresolvedTable : Type 0 where
  pub database : String
  pub name : String

pub data FilterError : Type 0 where
  no_database_specified : UnresolvedTable → FilterError

unfoldable pub new_filter_configuration : FilterConfiguration
new_filter_configuration = record {
  do_databases = [];
  ignore_databases = [];
  do_tables = [];
  ignore_tables = [];
}

-- _, ok := set[k]
abbrev pub contains : String → NameSet → Bool
contains k [] = false
contains k (j ∷ s) = (j == k) || contains k s

-- set[k] = struct{}{}
unfoldable pub add_name : String → NameSet → NameSet
add_name k s = if contains k s then s else s ++ (k ∷ [])

-- tables, ok := m[db]
abbrev pub lookup : String → TableSet → Option NameSet
lookup k [] = none
lookup k ((j, v) ∷ m) = if j == k then some v else lookup k m

-- m[db][table] = struct{}{}, with the inner map made where it is missing
unfoldable pub add_table : String → String → TableSet → TableSet
unfolding add_name
add_table db table [] = (db, table ∷ []) ∷ []
add_table db table ((j, v) ∷ m) =
    if j == db then (j, add_name table v) ∷ m else (j, v) ∷ add_table db table m

abbrev pub is_empty {ℓ} : {A : Type ℓ} → List A → Bool
is_empty [] = true
is_empty (x ∷ xs) = false

-- verifyAllTablesAreQualified
unfoldable pub verify_all_tables_are_qualified : List UnresolvedTable → Option FilterError
verify_all_tables_are_qualified [] = none
verify_all_tables_are_qualified (t ∷ ts) =
    if t.database == "" then some (no_database_specified t) else verify_all_tables_are_qualified ts

-- The tests of the databases: a filter that is not empty settles them, doDatabases first.
unfoldable pub database_filtered_out : FilterConfiguration → String → Bool
database_filtered_out fc db =
    if not (is_empty fc.do_databases)
    then not (contains db fc.do_databases)
    else if not (is_empty fc.ignore_databases)
    then contains db fc.ignore_databases
    else false

abbrev pub in_tables : String → Option NameSet → Bool
in_tables table none = false
in_tables table (some s) = contains table s

abbrev pub not_in_tables : String → Option NameSet → Bool
not_in_tables table none = false
not_in_tables table (some s) = not (contains table s)

-- The tests of the tables.
unfoldable pub table_filtered_out : FilterConfiguration → String → String → Bool
table_filtered_out fc db table =
    if not (is_empty fc.do_tables) && not_in_tables table (lookup db fc.do_tables)
    then true
    else not (is_empty fc.ignore_tables) && in_tables table (lookup db fc.ignore_tables)

-- nil for an empty set
unfoldable pub get_do_databases : FilterConfiguration → List String
get_do_databases fc = fc.do_databases

unfoldable pub get_ignore_databases : FilterConfiguration → List String
get_ignore_databases fc = fc.ignore_databases

-- convertFilterMapToStringSlice, which joins the names by a point
unfoldable pub convert_filter_map_to_string_slice : TableSet → List String
convert_filter_map_to_string_slice [] = []
convert_filter_map_to_string_slice ((db, tables) ∷ m) =
    map (λ table. append db (append "." table)) tables ++ convert_filter_map_to_string_slice m

unfoldable pub get_do_tables : FilterConfiguration → List String
unfolding convert_filter_map_to_string_slice
get_do_tables fc = convert_filter_map_to_string_slice fc.do_tables

unfoldable pub get_ignore_tables : FilterConfiguration → List String
unfolding convert_filter_map_to_string_slice
get_ignore_tables fc = convert_filter_map_to_string_slice fc.ignore_tables

module _ (lower : String → String) where
  -- The loop over the databases of a new filter.
  unfoldable pub lower_names : List String → NameSet → NameSet
  unfolding add_name
  lower_names [] s = s
  lower_names (db ∷ dbs) s = lower_names dbs (add_name (lower db) s)

  unfoldable pub set_do_databases : List String → FilterConfiguration → FilterConfiguration
  unfolding lower_names
  set_do_databases dbs fc = record fc { do_databases = lower_names dbs [] }

  unfoldable pub set_ignore_databases : List String → FilterConfiguration → FilterConfiguration
  unfolding lower_names
  set_ignore_databases dbs fc = record fc { ignore_databases = lower_names dbs [] }

  -- The loop over the tables of a new filter.
  unfoldable pub lower_tables : List UnresolvedTable → TableSet → TableSet
  unfolding add_table
  lower_tables [] m = m
  lower_tables (t ∷ ts) m = lower_tables ts (add_table (lower t.database) (lower t.name) m)

  unfoldable pub set_do_tables :
      List UnresolvedTable → FilterConfiguration → Outcome FilterError FilterConfiguration
  unfolding lower_tables verify_all_tables_are_qualified
  set_do_tables ts fc = elim (verify_all_tables_are_qualified ts) [
    | some e ↦ failed e
    | none ↦ done (record fc { do_tables = lower_tables ts [] })
  ]

  unfoldable pub set_ignore_tables :
      List UnresolvedTable → FilterConfiguration → Outcome FilterError FilterConfiguration
  unfolding lower_tables verify_all_tables_are_qualified
  set_ignore_tables ts fc = elim (verify_all_tables_are_qualified ts) [
    | some e ↦ failed e
    | none ↦ done (record fc { ignore_tables = lower_tables ts [] })
  ]

  -- The receiver may be nil. `db` and `table` are the names of the table map.
  unfoldable pub is_table_filtered_out : Option FilterConfiguration → String → String → Bool
  unfolding database_filtered_out table_filtered_out
  is_table_filtered_out none db table = false
  is_table_filtered_out (some fc) db table =
      if database_filtered_out fc (lower db)
      then true
      else table_filtered_out fc (lower db) (lower table)
