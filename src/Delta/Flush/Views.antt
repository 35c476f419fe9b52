-- ===== src/Delta/Flush/Views.antt =====
-- No Arrow view outlives a flush.
use Prim.Native.String.{String}
use text.Mathlib.Text.{◌==◌}
use myduckserver.Base.{Bool, true, false, if◌then◌else◌, ◌≡◌}
use myduckserver.Delta.Statements.Sql.{drop_view}
use myduckserver.Delta.Statements.Drops.{drops_view}
use myduckserver.Delta.Flush.{Engine}

-- Which views are registered: a registration that succeeds adds its view, a DROP VIEW takes it away, and nothing
-- else changes them, the release of the Arrow stream neither.
pub record RegistersViews {D B R : Type 0} (e : Engine D B R) (has : String → D → Bool)
    : Type 0 where
  pub exec : (n sql : String) (d : D) → drops_view sql ≡ false → has n (e.exec sql d).0 ≡ has n d
  pub drop :
      (n v : String) (d : D)
      → has n (e.exec (drop_view v) d).0 ≡ (if v == n then false else has n d)
  pub registered :
      (n v : String) (r : R) (d : D)
      → (e.register v r d).1 ≡ true
      → has n (e.register v r d).0 ≡ (if v == n then true else has n d)
  pub unregistered :
      (n v : String) (r : R) (d : D)
      → (e.register v r d).1 ≡ false
      → has n (e.register v r d).0 ≡ has n d
  pub release : (n v : String) (d : D) → has n (e.release v d) ≡ has n d
