-- ===== src/Filtering/Decision.antt =====
-- The decision of isTableFilteredOut in terms of the names that the filters were set from.
use Prim.Native.String.{String}
use text.Mathlib.Text.{◌==◌}
use myduckserver.Base.{
  Bool, true, false, ◌&&◌, ◌||◌, not, if◌then◌else◌, some, List, [], ◌∷◌, ◌++◌, ◌≡◌, refl, ◌∙◌,
  arith, done,
}
use myduckserver.Filtering.{
  NameSet, TableSet, FilterConfiguration, UnresolvedTable, contains, add_name, lookup, add_table,
  is_empty, lower_names, lower_tables, in_tables, set_do_databases, set_ignore_databases,
  set_do_tables, set_ignore_tables, is_table_filtered_out, database_filtered_out,
  table_filtered_out, new_filter_configuration,
}
use myduckserver.Filtering.Sets.{
  contains-add_name, has_entry, in_tables-add_table, has_entry-add_table, not_in_tables_lem,
  not_in_tables_guard, in_tables_guard,
}

module _ (lower : String → String) where
  -- `db` is one of the names, up to case.
  abbrev pub names : List String → String → Bool
  names [] db = false
  names (d ∷ dbs) db = lower d == lower db || names dbs db

  -- `db` is the database of one of the tables, up to case.
  abbrev pub names_database : List UnresolvedTable → String → Bool
  names_database [] db = false
  names_database (t ∷ ts) db = lower t.database == lower db || names_database ts db

  -- The table is one of the tables, up to case.
  abbrev pub names_table : List UnresolvedTable → String → String → Bool
  names_table [] db table = false
  names_table (t ∷ ts) db table =
      (lower t.database == lower db && lower t.name == lower table) || names_table ts db table

  contains-lower_names :
      (db : String) (dbs : List String) (s : NameSet)
      → contains (lower db) (lower_names lower dbs s) ≡ (names dbs db || contains (lower db) s)
  unfolding lower_names
  contains-lower_names db [] s = refl
  contains-lower_names db (d ∷ dbs) s = ground (
    arith,
    contains-lower_names db dbs (add_name (lower d) s),
    contains-add_name (lower db) (lower d) s,
  )

  is_empty-lower_names :
      (dbs : List String) (x : String) (s : NameSet)
      → is_empty (lower_names lower dbs (x ∷ s)) ≡ false
  unfolding lower_names add_name
  is_empty-lower_names [] x s = refl
  is_empty-lower_names (d ∷ dbs) x s =
      ground (arith, is_empty-lower_names dbs x s, is_empty-lower_names dbs x (s ++ (lower d ∷ [])))

  in_tables-lower_tables :
      (db table : String) (ts : List UnresolvedTable) (m : TableSet)
      → in_tables (lower table) (lookup (lower db) (lower_tables lower ts m))
        ≡ (names_table ts db table || in_tables (lower table) (lookup (lower db) m))
  unfolding lower_tables
  in_tables-lower_tables db table [] m = refl
  in_tables-lower_tables db table (t ∷ ts) m = ground (
    arith,
    in_tables-lower_tables db table ts (add_table (lower t.database) (lower t.name) m),
    in_tables-add_table (lower db) (lower table) (lower t.database) (lower t.name) m,
  )

  has_entry-lower_tables :
      (db : String) (ts : List UnresolvedTable) (m : TableSet)
      → has_entry (lookup (lower db) (lower_tables lower ts m))
        ≡ (names_database ts db || has_entry (lookup (lower db) m))
  unfolding lower_tables
  has_entry-lower_tables db [] m = refl
  has_entry-lower_tables db (t ∷ ts) m = ground (
    arith,
    has_entry-lower_tables db ts (add_table (lower t.database) (lower t.name) m),
    has_entry-add_table (lower db) (lower t.database) (lower t.name) m,
  )

  -- The rule that the code applies, in terms of the names that the filters were given.
  abbrev pub skips :
      List String
      → List String
      → List UnresolvedTable
      → List UnresolvedTable
      → String
      → String
      → Bool
  skips dbs ignored ts ignored_ts db table =
      (if is_empty dbs then names ignored db else not (names dbs db))
      || ((names_database ts db && not (names_table ts db table))
          || names_table ignored_ts db table)

  -- The filters that the four set operations leave.
  abbrev pub configured :
      List String → List String → List UnresolvedTable → List UnresolvedTable → FilterConfiguration
  configured dbs ignored ts ignored_ts = record {
    do_databases = lower_names lower dbs [];
    ignore_databases = lower_names lower ignored [];
    do_tables = lower_tables lower ts [];
    ignore_tables = lower_tables lower ignored_ts [];
  }

  is_empty-configured : (dbs : List String) → is_empty (lower_names lower dbs []) ≡ is_empty dbs
  unfolding lower_names add_name
  is_empty-configured [] = refl
  is_empty-configured (d ∷ dbs) = is_empty-lower_names dbs (lower d) []

  names_table_none :
      (ts : List UnresolvedTable) (db table : String)
      → names_database ts db ≡ false
      → names_table ts db table ≡ false
  names_table_none [] db table h = refl
  names_table_none (t ∷ ts) db table h = ground (arith, names_table_none ts db table)

  names_empty : (dbs : List String) (db : String) → is_empty dbs ≡ true → names dbs db ≡ false
  names_empty [] db h = refl
  names_empty (d ∷ dbs) db h = cc

  databases_configured :
      (dbs ignored : List String) (ts ignored_ts : List UnresolvedTable) (db : String)
      → database_filtered_out (configured dbs ignored ts ignored_ts) (lower db)
        ≡ (if is_empty dbs then names ignored db else not (names dbs db))
  unfolding database_filtered_out
  databases_configured dbs ignored ts ignored_ts db =
      rw
        (
          is_empty-configured dbs,
          is_empty-configured ignored,
          contains-lower_names db dbs [],
          contains-lower_names db ignored [],
        )
        (ground (arith, names_empty ignored db))

  tables_configured :
      (dbs ignored : List String) (ts ignored_ts : List UnresolvedTable) (db table : String)
      → table_filtered_out (configured dbs ignored ts ignored_ts) (lower db) (lower table) ≡ (
          (names_database ts db && not (names_table ts db table))
          || names_table ignored_ts db table)
  unfolding table_filtered_out has_entry
  tables_configured dbs ignored ts ignored_ts db table =
      let m = lower_tables lower ts [] in
      let n = lower_tables lower ignored_ts [] in
      rw
        (
          not_in_tables_guard (lower db) (lower table) m,
          in_tables_guard (lower db) (lower table) n,
          not_in_tables_lem (lower table) (lookup (lower db) m),
          in_tables-lower_tables db table ts [],
          has_entry-lower_tables db ts [],
          in_tables-lower_tables db table ignored_ts [],
        )
        (ground arith)

  is_table_filtered_out-configured :
      (dbs ignored : List String) (ts ignored_ts : List UnresolvedTable) (db table : String)
      → is_table_filtered_out lower (some (configured dbs ignored ts ignored_ts)) db table
        ≡ skips dbs ignored ts ignored_ts db table
  unfolding is_table_filtered_out
  is_table_filtered_out-configured dbs ignored ts ignored_ts db table =
      rw
        (
          databases_configured dbs ignored ts ignored_ts db,
          tables_configured dbs ignored ts ignored_ts db table,
        )
        (ground arith)

-- After all four filters have been set (the table filters with qualified names, in any case), a table
-- is skipped exactly by the rule `skips`: its database is not among the do-databases or, where there are
-- none, is among the ignored; or its database has do-tables and it is none of them; or it is ignored.
-- Names are compared in lower case, whatever the filters were before.
pub is_table_filtered_out-skips :
    (lower : String → String) (dbs ignored : List String) (ts ignored_ts : List UnresolvedTable)
    (fc fc' fc'' : FilterConfiguration) (db table : String)
    → set_do_tables lower ts (set_ignore_databases lower ignored (set_do_databases lower dbs fc))
      ≡ done fc'
    → set_ignore_tables lower ignored_ts fc' ≡ done fc''
    → is_table_filtered_out lower (some fc'') db table
      ≡ skips lower dbs ignored ts ignored_ts db table
unfolding set_do_databases set_ignore_databases set_do_tables set_ignore_tables
is_table_filtered_out-skips lower dbs ignored ts ignored_ts fc fc' fc'' db table h k =
    let e : fc'' ≡ configured lower dbs ignored ts ignored_ts = ground arith in
    rw e (is_table_filtered_out-configured lower dbs ignored ts ignored_ts db table)

-- A do-table filter does not skip a table whose database has no entry in it: with no other filter set,
-- such a table is replicated though it is not listed.
pub unlisted_database_replicated :
    (lower : String → String) (ts : List UnresolvedTable) (fc : FilterConfiguration)
    (db table : String)
    → set_do_tables lower ts new_filter_configuration ≡ done fc
    → names_database lower ts db ≡ false
    → (is_table_filtered_out lower (some fc) db table ≡ false)
      × (names_table lower ts db table ≡ false)
unfolding set_do_tables new_filter_configuration
unlisted_database_replicated lower ts fc db table h k =
    let e : fc ≡ configured lower [] [] ts [] = unfold lower_names lower_tables in ground arith in
    (
      rw e (is_table_filtered_out-configured lower [] [] ts [] db table ∙ rw k),
      names_table_none lower ts db table k,
    )
