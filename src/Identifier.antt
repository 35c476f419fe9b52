-- ===== src/Identifier.antt =====
-- catalog/identifier.go: the quoting of identifiers for DuckDB. strings.ReplaceAll of the quotation mark
-- is `doubled`, a walk over the characters. The source overwrites its variadic arguments, a slice that
-- no caller keeps.
pub mod Quoting
use Prim.Native.Char.{Char, char, code}
use Prim.Native.String.{String, ◌++◌, [], ◌∷◌}
use mathlib.Core.List.{List, map, [] as nil, ◌∷◌ as cons}
use myduckserver.Base.{◌==◌, if◌then◌else◌}

-- The quotation mark of ANSI SQL.
abbrev pub quote : Char
quote = char 34 tt

-- strings.ReplaceAll(identifier, `"`, `""`)
unfoldable pub doubled : String → String
doubled [] = []
doubled (c ∷ s) = if code c == 34 then quote ∷ (quote ∷ doubled s) else c ∷ doubled s

unfoldable pub quote_identifier_ansi : String → String
unfolding doubled
quote_identifier_ansi s = quote ∷ (doubled s ++ (quote ∷ []))

-- strings.Join
unfoldable pub join : String → List String → String
join separator nil = []
join separator (cons s nil) = s
join separator (cons s (cons t ts)) = s ++ (separator ++ join separator (cons t ts))

unfoldable pub connect_identifiers_ansi : List String → String
unfolding join quote_identifier_ansi
connect_identifiers_ansi ids = join "." (map quote_identifier_ansi ids)
