-- ===== src/Samples/Cells.antt =====
-- A SMALLINT cell behind another byte.
use myduckserver.Base.{[], ◌∷◌, ◌≡◌, refl, done}
use myduckserver.Base.Int.{pos}
use myduckserver.Charset.{Bytes}
use myduckserver.Binlog.FieldType
use myduckserver.Binlog.Cell.{int, int16, byte_at, le_at, append_as, kind_code}
use myduckserver.Binlog.Cell.Encode.{push}
use myduckserver.Binlog.Length.{cell_length}
use myduckserver.Binlog.Numeric.{cell_short}
use myduckserver.Binlog.CellValue.{cell_value}
use myduckserver.Binlog.CellValue.Agreement.{cell_value-cell_length}
use myduckserver.Binlog.CellValue.Position.{cell_value_position}
use myduckserver.Samples.{builder, signed_column, externals}

abbrev event : Bytes
event = 5 ∷ 1 ∷ 2 ∷ []

cell_at_one :
    cell_value externals event 1 FieldType.short 0 signed_column (builder int16)
    ≡ done (2, push (int (pos 513)) (builder int16))
unfolding cell_value cell_short le_at byte_at append_as kind_code
cell_at_one = refl

cell_value-cell_length_example : cell_length event 1 FieldType.short 0 ≡ done 2
cell_value-cell_length_example =
    cell_value-cell_length externals event 1 FieldType.short 0 signed_column (builder int16) tt
      cell_at_one

cell_value_position_example :
    cell_value externals event 1 FieldType.short 0 signed_column (builder int16)
    ≡ cell_value externals (1 ∷ 2 ∷ []) 0 FieldType.short 0 signed_column (builder int16)
cell_value_position_example =
    cell_value_position externals (5 ∷ []) (1 ∷ 2 ∷ []) 0 FieldType.short 0 signed_column
      (builder int16)
