-- ===== src/Samples/Decimals.antt =====
-- Decimal cells at concrete inputs.
use myduckserver.Base.{true, ◌*◌, ◌+◌, [], ◌∷◌, ◌++◌, ◌≡◌, refl, arith, done, some, inl}
use myduckserver.Binlog.Cell.{Builder, decimal_value, decimal128}
use myduckserver.Binlog.Cell.Encode.{push}
use myduckserver.Binlog.Decimal.{cell_decimal}
use myduckserver.Binlog.Decimal.Mask.{mask}
use myduckserver.Binlog.Decimal.Coefficient.{layout, Digits, Fits, digit_bytes}
use myduckserver.Binlog.Decimal.RoundTrip.{cell_decimal-mask}

-- An array of DECIMAL(38, 6).
abbrev array : Builder
array = record { kind = decimal128; decimal_scale = some 6; items = [] }

-- 12345678901234.5678, the example of the source, in a DECIMAL(18, 4)
abbrev number : Digits
number = record { first = 12345; whole = 678901234 ∷ []; fraction = []; last = 5678 }

number-Fits : Fits (layout 18 4) 5 number
number-Fits = record {
  first_fits = omega arith;
  whole_groups = (omega arith, tt);
  whole_length = refl;
  fraction_groups = tt;
  fraction_length = refl;
  last_fits = omega arith;
}

cell_decimal-mask_example :
    cell_decimal (mask true (digit_bytes (layout 18 4) number) ++ (9 ∷ [])) 0 (18 * 256 + 4) array
    ≡ done (9, push (decimal_value true 12345678901234567800) array)
cell_decimal-mask_example =
    cell_decimal-mask 18 4 6 true number (9 ∷ []) array (omega arith) (omega arith) (omega arith)
      (omega arith) (inl (omega arith)) number-Fits (inl (refl, omega arith)) refl
