-- ===== src/Delta/Statements.antt =====
-- The SQL texts that delta/controller.go builds, and the columns of delta/delta.go.
pub mod Keys
pub mod Sql
pub mod Drops
use Prim.Native.Char.{Char}
use Prim.Native.String.{String, ◌++◌ as append, [] as empty, ◌∷◌ as cons, char_at}
use myduckserver.Base.{
  ℕ, zero, suc, ◌+◌, ◌/◌, ◌%◌, Bool, true, false, ltb, if◌then◌else◌, List, [], ◌∷◌, ◌++◌, map,
}
use myduckserver.Identifier.{join, quote_identifier_ansi, connect_identifiers_ansi}

infixr 65 ◌⋯◌
abbrev pub ◌⋯◌ : String → String → String
s ⋯ t = append s t

-- What is used of sql.Column; `is_timestamp` is isTimestampType(col.Type).
pub record Column : Type 0 where
  pub name : String
  pub is_timestamp : Bool
  pub primary_key : Bool

pub record TableIdentifier : Type 0 where
  pub db_name : String
  pub table_name : String

abbrev plain : String → Column
plain s = record { name = s; is_timestamp = false; primary_key = false }

unfoldable pub augmented_column_list : String
augmented_column_list = "action, txn_tag, txn_server, txn_group, txn_seq, txn_stmt"

-- NumAugmentedFields
unfoldable pub num_augmented_fields : ℕ
num_augmented_fields = 6

-- The schema that newDeltaAppender makes; BaseSchema is the argument again.
unfoldable pub augmented_schema : List Column → List Column
augmented_schema base =
    plain "action"
    ∷ plain "txn_tag"
    ∷ plain "txn_server"
    ∷ plain "txn_group"
    ∷ plain "txn_seq"
    ∷ plain "txn_stmt"
    ∷ base

abbrev digit : ℕ → Char
digit n = char_at "0123456789" n

abbrev digits : ℕ → ℕ → String → String
digits zero n s = s
digits (suc fuel) n s =
    let more = digits fuel (n / 10) (cons (digit (n % 10)) s) in
    if ltb n 10 then cons (digit n) s else more

-- strconv.Itoa of a number that is not negative
unfoldable pub itoa : ℕ → String
itoa n = digits (suc n) n empty

unfoldable pub qualified_name : TableIdentifier → String
unfolding connect_identifiers_ansi
qualified_name t = connect_identifiers_ansi (t.db_name ∷ t.table_name ∷ [])

abbrev column_item : Column → String
column_item c = quote_identifier_ansi c.name ⋯ (if c.is_timestamp then "::TIMESTAMP" else "")

unfoldable pub build_column_list : List Column → String
unfolding join
build_column_list schema = join ", " (map column_item schema)

-- The loop of getPrimaryKeyIndices from index `i`.
unfoldable pub key_indices : ℕ → List Column → List ℕ
unfolding num_augmented_fields
key_indices i [] = []
key_indices i (c ∷ cs) =
    let rest = key_indices (i + 1) cs in
    if c.primary_key then (i + num_augmented_fields) ∷ rest else rest

unfoldable pub get_primary_key_indices : List Column → List ℕ
unfolding key_indices
get_primary_key_indices base = key_indices 0 base

-- The quoted names of the primary key's columns, in the order of the schema.
unfoldable pub key_names : List Column → List String
unfolding quote_identifier_ansi
key_names [] = []
key_names (c ∷ cs) =
    let rest = key_names cs in if c.primary_key then quote_identifier_ansi c.name ∷ rest else rest

abbrev key_tuple : List String → String
key_tuple [] = ""
key_tuple (k ∷ []) = k
key_tuple (k ∷ l ∷ ks) = "row(" ⋯ join ", " (k ∷ l ∷ ks) ⋯ ")"

unfoldable pub get_primary_key_struct : List Column → String
unfolding key_names
get_primary_key_struct schema = key_tuple (key_names schema)

unfoldable pub get_primary_key_list : List Column → String
unfolding key_names join
get_primary_key_list schema = join ", " (key_names schema)

-- The items for the columns behind the first, of which the one at `i` is r[i + 2].
unfoldable pub condensed_items : ℕ → List Column → String
unfolding itoa quote_identifier_ansi
condensed_items i [] = ""
condensed_items i (c ∷ cs) =
    ", r["
    ⋯ itoa (i + 2)
    ⋯ "]"
    ⋯ (if c.is_timestamp then "::TIMESTAMP" else "")
    ⋯ " AS "
    ⋯ quote_identifier_ansi c.name
    ⋯ condensed_items (i + 1) cs

abbrev all_items : List Column → String
all_items [] = ""
all_items (c ∷ cs) = "r[1] AS " ⋯ quote_identifier_ansi c.name ⋯ condensed_items 0 cs

-- buildCondenseDeltaSQL
unfoldable pub build_condense_delta_sql : String → List Column → String
unfolding augmented_schema get_primary_key_list condensed_items
build_condense_delta_sql view_name base =
    "SELECT "
    ⋯ all_items (augmented_schema base)
    ⋯ " FROM (SELECT "
    ⋯ get_primary_key_list base
    ⋯ ", LAST(ROW(*COLUMNS(*)) ORDER BY txn_group, txn_seq, txn_stmt, action) AS r"
    ⋯ " FROM "
    ⋯ view_name
    ⋯ " GROUP BY "
    ⋯ get_primary_key_list base
    ⋯ ")"
