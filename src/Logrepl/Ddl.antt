-- ===== src/Logrepl/Ddl.antt =====
-- pgserver/logrepl/ddl.go: the CREATE TABLE statement for a relation, and DecodePrecisionScale of
-- pgtypes/pgtypes.go. The table PostgresOIDToDuckDBTypeName is the parameter `type_name_of`.
use Prim.Native.String.{String}
use myduckserver.Base.{
  ℕ, ◌+◌, ◌-◌, ◌/◌, ◌%◌, ◌^◌, ◌==◌, ltb, Bool, if◌then◌else◌, Option, none, some, List, [], ◌∷◌,
  map,
}
use myduckserver.Base.Int.{ℤ, pos, negsuc}
use myduckserver.Identifier.{join, quote_identifier_ansi, connect_identifiers_ansi}
use myduckserver.Delta.Statements.{◌⋯◌, itoa}
use myduckserver.Logrepl.{RelationColumn, Relation}

-- The subtraction of VARHDRSZ is made in an int of 64 bits.
unfoldable pub decode_precision_scale : ℤ → Option (ℕ × ℕ)
decode_precision_scale (negsuc n) = none
decode_precision_scale (pos n) =
    let rest = (n + (2 ^ 64 - 4)) % 2 ^ 64 in
    if ltb 0 n then some (rest / 2 ^ 16 % 2 ^ 16, rest % 2 ^ 16) else none

-- pgtype.NumericOID
abbrev pub numeric_oid : ℕ
numeric_oid = 1700

abbrev decimal_name : Option (ℕ × ℕ) → String
decimal_name none = "VARCHAR"
decimal_name (some (precision, scale)) = "DECIMAL(" ⋯ itoa precision ⋯ "," ⋯ itoa scale ⋯ ")"

module _ (type_name_of : ℕ → Option String) where
  unfoldable pub pg_type_name : RelationColumn → String
  unfolding decode_precision_scale itoa
  pg_type_name c = elim (type_name_of c.data_type) [
    | none ↦ "VARCHAR"
    | some name ↦
        if c.data_type == numeric_oid
        then decimal_name (decode_precision_scale c.type_modifier)
        else name
  ]

  abbrev column_definition : RelationColumn → String
  column_definition c = quote_identifier_ansi c.name ⋯ " " ⋯ pg_type_name c

  -- The names of the key columns, which the source does not quote.
  unfoldable pub key_columns : List RelationColumn → List String
  key_columns [] = []
  key_columns (c ∷ cs) = let rest = key_columns cs in if c.is_key then c.name ∷ rest else rest

  abbrev primary_key : Bool → List String → String
  primary_key no_index [] = ""
  primary_key no_index (k ∷ ks) =
      if no_index then "" else ", PRIMARY KEY (" ⋯ join ", " (k ∷ ks) ⋯ ")"

  -- generateCreateTableStmt; `no_index` is configuration.IsReplicationWithoutIndex().
  unfoldable pub generate_create_table_stmt : Bool → Relation → String
  unfolding pg_type_name key_columns join connect_identifiers_ansi
  generate_create_table_stmt no_index r =
      "CREATE TABLE IF NOT EXISTS "
      ⋯ connect_identifiers_ansi (r.namespace ∷ r.relation_name ∷ [])
      ⋯ " ("
      ⋯ join ", " (map column_definition r.columns)
      ⋯ primary_key no_index (key_columns r.columns)
      ⋯ ");"
