-- ===== src/Applier/Mapped.antt =====
-- The table maps: a row event takes the map that was sent for its table's number, until the maps are freed.
use text.Mathlib.Text.{◌==◌ as same}
use myduckserver.Base.{ℕ, ◌==◌, Bool, true, false, ◌||◌, if◌then◌else◌, Option, ◌≡◌, refl, done}
use myduckserver.Base.Actions.{modify, pure, ◌>>◌}
use myduckserver.Base.Maps.{put_id, find_id-put_id}
use myduckserver.Delta.{RowEventType}
use myduckserver.Delta.Flush.{Engine}
use myduckserver.Filtering.{is_table_filtered_out}
use myduckserver.Applier.{Positions, TableMap, BinlogRows, Applying}
use myduckserver.Applier.Server.{Server}
use myduckserver.Applier.Rows.{Rower}
use myduckserver.Applier.RowEvents.{unsupported, process_rows, process_row_event}
use myduckserver.Applier.Events.{BinlogReader, note_table_map}

either_skips :
    {A : Type 0} (b c : Bool) (x y : A)
    → (if b then x else if c then x else y) ≡ (if b || c then x else y)
either_skips true c x y = refl
either_skips false c x y = refl

module _ {D T P X V B R E : Type 0} (v : Server D T P V) (p : Positions P) (e : Engine D B R)
    (w : Rower B X V) (x : BinlogReader E) (no_index : Bool) where
  noted :
      (now id : ℕ) (t : TableMap) (r : Applying D B P)
      → unsupported t.flags ≡ 0
      → (id == 16777215) ≡ false
      → note_table_map v p e w x no_index now id t r ≡ (
        record r {
          applier = record r.applier { table_maps_by_id = put_id id t r.applier.table_maps_by_id };
        },
        done tt,
      )
  unfolding note_table_map modify pure ◌>>◌
  noted now id t r h k = simp (h, k) refl

  -- Behind a table map with an ordinary number and no flag that is unknown, a row event for this number is
  -- applied with this map, unless its table is MySQL's own or filtered out, which changes nothing.
  pub process_row_event-note_table_map :
      (now later id : ℕ) (t : TableMap) (event : RowEventType) (rows : TableMap → Option BinlogRows)
      (r : Applying D B P)
      → unsupported t.flags ≡ 0
      → (id == 16777215) ≡ false
      → let s = (note_table_map v p e w x no_index now id t r).0 in
        process_row_event v w later event id rows s ≡ (
          if same t.database "mysql"
            || is_table_filtered_out v.lower r.applier.filters t.database t.name
          then (s, done tt)
          else process_rows v w later t event (rows t) s)
  unfolding process_row_event
  process_row_event-note_table_map now later id t event rows r h k = rw (noted now id t r h k) (
      rw (find_id-put_id id t r.applier.table_maps_by_id, process_row_event)
        (either_skips (same t.database "mysql") _ _ _))
