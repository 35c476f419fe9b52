-- ===== src/Delta/Flush/Lookup.antt =====
-- The appenders that GetDeltaAppender of delta/controller.go hands out.
use text.Mathlib.TextPositions.{eq_refl}
use myduckserver.Base.{true, none, some, List, [], ◌∷◌, ◌++◌, Outcome, done, ◌≡◌, refl, arith}
use myduckserver.Delta.Statements.{Column, TableIdentifier}
use myduckserver.Delta.Flush.{Appender}
use myduckserver.Delta.Flush.Controller.{Tables, same_table, find_table, get_delta_appender}

same_table_refl : (t : TableIdentifier) → same_table t t ≡ true
same_table_refl t = rw (eq_refl t.db_name, eq_refl t.table_name) refl

find_table-append :
    {B : Type 0} (t : TableIdentifier) (a : Appender B) (ts : Tables B)
    → find_table t ts ≡ none
    → find_table t (ts ++ ((t, a) ∷ [])) ≡ some a
find_table-append t a [] h = rw (same_table_refl t) refl
find_table-append t a ((u, b) ∷ ts) h = ground (arith, find_table-append t a ts)

-- What a call leaves: the appender is found under its table, and nothing that was found is lost.
get_delta_appender-find_table :
    {B E : Type 0} (new_builder : List Column → Outcome E B) (t : TableIdentifier)
    (base : List Column) (ts : Tables B) (a : Appender B) (ts' : Tables B)
    → get_delta_appender new_builder t base ts ≡ done (a, ts')
    → find_table t ts' ≡ some a
unfolding get_delta_appender
get_delta_appender-find_table new_builder t base ts a ts' h =
    ground (arith, find_table-append t a ts)

-- Once GetDeltaAppender has returned an appender for a table, every later call for the table returns the
-- same appender and changes nothing, whatever schema it is given.
pub get_delta_appender-again :
    {B E : Type 0} (new_builder : List Column → Outcome E B) (t : TableIdentifier)
    (base base' : List Column) (ts : Tables B) (a : Appender B) (ts' : Tables B)
    → get_delta_appender new_builder t base ts ≡ done (a, ts')
    → get_delta_appender new_builder t base' ts' ≡ done (a, ts')
unfolding get_delta_appender
get_delta_appender-again new_builder t base base' ts a ts' h =
    let found = get_delta_appender-find_table new_builder t base ts a ts' h in ground (arith, found)
