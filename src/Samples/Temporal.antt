-- ===== src/Samples/Temporal.antt =====
-- Temporal cells at concrete inputs.
use myduckserver.Base.{ℕ, true, [], ◌∷◌, ◌++◌, ◌≡◌, ◌↔◌, refl, arith, done}
use myduckserver.Binlog.Cell.{at_time, date_utc, micros, timestamp_us, duration}
use myduckserver.Binlog.Cell.Encode.{push, le_bytes, be_bytes}
use myduckserver.Binlog.Temporal.{cell_time, cell_date_time2, cell_time2}
use myduckserver.Binlog.Temporal.Packed.{HasDecimals, fraction_bytes}
use myduckserver.Binlog.Temporal.RoundTrip.{IsCalendar, packed_date_time, cell_date_time2-packed}
use myduckserver.Binlog.Temporal.TimeRoundTrip.{
  IsTime, decimal_time, time_value, packed_time, cell_time_exact, cell_time2-packed_time,
}
use myduckserver.Samples.{builder}

leap_day-IsCalendar : IsCalendar 2024 2 29 23 59 58
leap_day-IsCalendar = record {
  year = omega arith;
  month = omega arith;
  day = omega arith;
  hour = omega arith;
  minute = omega arith;
  second = omega arith;
}

three_decimals : HasDecimals 3 250000
three_decimals = record {
  at_most_six = omega arith;
  below_second = omega arith;
  whole_units = refl;
}

evening-IsTime : IsTime 23 59 58
evening-IsTime = record { hour = omega arith; minute = omega arith; second = omega arith }

cell_date_time2-packed_example :
    cell_date_time2
      (be_bytes 5 (packed_date_time 2024 2 29 23 59 58) ++ (fraction_bytes 3 250000 ++ (9 ∷ [])))
      0
      3
      (builder timestamp_us)
    ≡ done (7, push (at_time (date_utc 2024 2 29 23 59 58 250000000)) (builder timestamp_us))
cell_date_time2-packed_example =
    cell_date_time2-packed 2024 2 29 23 59 58 3 250000 (9 ∷ []) (builder timestamp_us)
      leap_day-IsCalendar three_decimals refl

cell_time_exact_example :
    (cell_time (le_bytes 3 (decimal_time true 23 59 58) ++ (9 ∷ [])) 0 (builder duration)
      ≡ done (3, push (micros (time_value true 23 59 58 0)) (builder duration)))
    ↔ ((true ≡ true) → ◌≡◌ {A = ℕ} 59 0 × ◌≡◌ {A = ℕ} 58 0)
cell_time_exact_example =
    cell_time_exact true 23 59 58 (9 ∷ []) (builder duration) evening-IsTime (omega arith) refl

cell_time2-packed_time_example :
    cell_time2 (be_bytes 5 (packed_time true 23 59 58 3 250000) ++ (9 ∷ [])) 0 3 (builder duration)
    ≡ done (5, push (micros (time_value true 23 59 58 250000)) (builder duration))
cell_time2-packed_time_example =
    cell_time2-packed_time true 23 59 58 3 250000 (9 ∷ []) (builder duration) evening-IsTime
      three_decimals refl
