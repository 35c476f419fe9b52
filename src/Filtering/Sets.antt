-- ===== src/Filtering/Sets.antt =====
-- The sets and maps of names that the filters of binlogreplication/binlog_replica_filtering.go use.
use Prim.Native.String.{String}
use text.Mathlib.Text.{◌==◌}
use text.Mathlib.TextEquality.{eq_iff}
use myduckserver.Base.{
  Bool, true, false, ◌&&◌, ◌||◌, not, Option, none, some, [], ◌∷◌, ◌++◌, ◌≡◌, refl, arith,
}
use myduckserver.Filtering.{
  NameSet, TableSet, contains, add_name, lookup, add_table, is_empty, in_tables, not_in_tables,
}

contains-append :
    (k j : String) (s : NameSet) → contains k (s ++ (j ∷ [])) ≡ (contains k s || j == k)
contains-append k j [] = ground arith
contains-append k j (x ∷ s) = ground (arith, contains-append k j s)

contains_self :
    (k j : String) (s : NameSet) → contains j s ≡ true → (j == k) ≡ true → contains k s ≡ true
contains_self k j s h e = let p : j ≡ k = (eq_iff j k).0 e in rw p at h

pub contains-add_name :
    (k j : String) (s : NameSet) → contains k (add_name j s) ≡ ((j == k) || contains k s)
unfolding add_name
contains-add_name k j s = ground (arith, contains_self k j s, contains-append k j s)

unfoldable pub has_entry : Option NameSet → Bool
has_entry none = false
has_entry (some s) = true

pub in_tables-add_table :
    (db table d t : String) (m : TableSet)
    → in_tables table (lookup db (add_table d t m))
      ≡ ((d == db && t == table) || in_tables table (lookup db m))
unfolding add_table
in_tables-add_table db table d t [] = ground arith
in_tables-add_table db table d t ((j, v) ∷ m) = ground (
  arith,
  eq_iff j d,
  eq_iff j db,
  eq_iff d db,
  contains-add_name table t v,
  in_tables-add_table db table d t m,
)

pub has_entry-add_table :
    (db d t : String) (m : TableSet)
    → has_entry (lookup db (add_table d t m)) ≡ (d == db || has_entry (lookup db m))
unfolding add_table has_entry
has_entry-add_table db d t [] = ground arith
has_entry-add_table db d t ((j, v) ∷ m) =
    ground (arith, eq_iff j d, eq_iff j db, eq_iff d db, has_entry-add_table db d t m)

pub not_in_tables_lem :
    (table : String) (o : Option NameSet)
    → not_in_tables table o ≡ (has_entry o && not (in_tables table o))
unfolding has_entry
not_in_tables_lem table none = refl
not_in_tables_lem table (some s) = refl

-- An empty map has no entry, so the guards on the sizes of the maps change nothing.
pub not_in_tables_guard :
    (db table : String) (m : TableSet)
    → (not (is_empty m) && not_in_tables table (lookup db m)) ≡ not_in_tables table (lookup db m)
not_in_tables_guard db table [] = refl
not_in_tables_guard db table (e ∷ m) = refl

pub in_tables_guard :
    (db table : String) (m : TableSet)
    → (not (is_empty m) && in_tables table (lookup db m)) ≡ in_tables table (lookup db m)
in_tables_guard db table [] = refl
in_tables_guard db table (e ∷ m) = refl
