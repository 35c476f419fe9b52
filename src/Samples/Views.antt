-- ===== src/Samples/Views.antt =====
-- A database of which the registered views are known, and flushes of tables with and without rows.
use Prim.Native.String.{String}
use text.Mathlib.Text.{◌==◌}
use myduckserver.Base.{ℕ, Bool, true, false, if◌then◌else◌, some}
use myduckserver.Delta.Statements.Drops.{drops_view}
use myduckserver.Delta.Flush.{Engine}

-- What follows a text of as many characters.
abbrev after : String → String → String
after String.[] s = s
after (String.◌∷◌ c p) String.[] = String.[]
after (String.◌∷◌ c p) (String.◌∷◌ d s) = after p s

abbrev Registered : Type 0
Registered = String → Bool

abbrev set_view : String → Bool → Registered → Registered
set_view v b d n = if v == n then b else d n

abbrev executed : String → Registered → Registered
executed sql d = if drops_view sql then set_view (after "DROP VIEW IF EXISTS " sql) false d else d

abbrev viewing : Engine Registered ℕ ℕ
viewing = record {
  exec = λ sql d. (executed sql d, some 1);
  register = λ v r d. (set_view v true d, true);
  release = λ v d. d;
  hash = λ s. s;
  row_count = λ b. b;
  build = λ b. (b, 0);
  grow = λ n b. b;
  drop_fields = λ n r. r;
  select_fields = λ is r. r;
}
