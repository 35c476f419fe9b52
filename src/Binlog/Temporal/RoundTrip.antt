-- ===== src/Binlog/Temporal/RoundTrip.antt =====
-- The temporal cells of CellValue (binlog/rbr.go) give back the date and time that MySQL packed.
use myduckserver.Base.{ℕ, ◌+◌, ◌*◌, ◌^◌, ◌≤◌, ◌<◌, ◌≡◌, arith, ◌++◌, done}
use myduckserver.Charset.{Bytes}
use myduckserver.Binlog.Cell.{date_utc, unix, at_time, timestamp_us, date32, Builder, append_as}
use myduckserver.Binlog.Cell.Encode.{le_bytes, be_bytes, push, be_at-be_bytes, le_at-le_bytes}
use myduckserver.Binlog.Temporal.{
  cell_timestamp2, cell_date_time2, cell_date, cell_date_time, date_time2_parts,
}
use myduckserver.Binlog.Temporal.Packed.{
  HasDecimals, fraction_size, fraction_bytes, read_fraction-fraction_bytes,
}

-- The fields of a DATETIME of MySQL, year 0 and the zero date included.
pub record IsCalendar (y mo d h mi s : ℕ) : Type 0 where
  pub year : y ≤ 9999
  pub month : mo ≤ 12
  pub day : d ≤ 31
  pub hour : h ≤ 23
  pub minute : mi ≤ 59
  pub second : s ≤ 59

-- my_datetime_packed_to_binary: 17 bits of time below the date, and the sign bit.
abbrev pub packed_date_time : ℕ → ℕ → ℕ → ℕ → ℕ → ℕ → ℕ
packed_date_time y mo d h mi s =
    0x8000000000 + ((y * 13 + mo) * 2 ^ 5 + d) * 2 ^ 17 + h * 2 ^ 12 + mi * 2 ^ 6 + s

packed_date_time_parts :
    (y mo d h mi s us : ℕ)
    → IsCalendar y mo d h mi s
    → date_time2_parts (packed_date_time y mo d h mi s) us ≡ date_utc y mo d h mi s (us * 1000)
unfolding date_time2_parts
packed_date_time_parts y mo d h mi s us c = ground arith

-- A DATETIME with up to six decimals is handed to time.Date with the fields that were packed, and the
-- fraction in nanoseconds; the size counts the bytes of both parts.
pub cell_date_time2-packed :
    (y mo d h mi s m us : ℕ) (rest : Bytes) (b : Builder)
    → IsCalendar y mo d h mi s
    → HasDecimals m us
    → b.kind ≡ timestamp_us
    → cell_date_time2
        (be_bytes 5 (packed_date_time y mo d h mi s) ++ (fraction_bytes m us ++ rest))
        0
        m
        b
      ≡ done (5 + fraction_size m, push (at_time (date_utc y mo d h mi s (us * 1000))) b)
unfolding cell_date_time2 append_as
cell_date_time2-packed y mo d h mi s m us rest b c f k =
    let v = packed_date_time y mo d h mi s in
    rw
      (
        be_at-be_bytes 5 v (fraction_bytes m us ++ rest) (omega arith) (omega arith),
        read_fraction-fraction_bytes (be_bytes 5 v) rest m us f,
        packed_date_time_parts y mo d h mi s us c,
      )
      (ground arith)

-- A TIMESTAMP with up to six decimals is handed to time.Unix with its seconds, and the fraction in
-- nanoseconds.
pub cell_timestamp2-packed :
    (second m us : ℕ) (rest : Bytes) (b : Builder)
    → second < 2 ^ 32
    → HasDecimals m us
    → b.kind ≡ timestamp_us
    → cell_timestamp2 (be_bytes 4 second ++ (fraction_bytes m us ++ rest)) 0 m b
      ≡ done (4 + fraction_size m, push (at_time (unix second (us * 1000))) b)
unfolding cell_timestamp2 append_as
cell_timestamp2-packed second m us rest b h f k =
    rw
      (
        be_at-be_bytes 4 second (fraction_bytes m us ++ rest) (omega arith) (omega arith),
        read_fraction-fraction_bytes (be_bytes 4 second) rest m us f,
      )
      (ground arith)

-- my_date_to_binary
abbrev pub packed_date : ℕ → ℕ → ℕ → ℕ
packed_date y mo d = y * 2 ^ 9 + mo * 2 ^ 5 + d

-- The packing of a DATETIME before MySQL 5.6: the decimal digits of the fields.
abbrev pub decimal_date_time : ℕ → ℕ → ℕ → ℕ → ℕ → ℕ → ℕ
decimal_date_time y mo d h mi s = ((((y * 100 + mo) * 100 + d) * 100 + h) * 100 + mi) * 100 + s

-- A DATE, and a DATETIME in the packing before MySQL 5.6, are handed to time.Date with the fields that
-- were packed.
pub cell_date-packed :
    (y mo d h mi s : ℕ) (rest : Bytes) (b c : Builder)
    → IsCalendar y mo d h mi s
    → b.kind ≡ date32
    → c.kind ≡ timestamp_us
    → (cell_date (le_bytes 3 (packed_date y mo d) ++ rest) 0 b
        ≡ done (3, push (at_time (date_utc y mo d 0 0 0 0)) b))
      × (cell_date_time (le_bytes 8 (decimal_date_time y mo d h mi s) ++ rest) 0 c
          ≡ done (8, push (at_time (date_utc y mo d h mi s 0)) c))
unfolding cell_date cell_date_time append_as
cell_date-packed y mo d h mi s rest b c cal kb kc = (
  rw (le_at-le_bytes 3 (packed_date y mo d) rest (omega arith)) (ground arith),
  rw (le_at-le_bytes 8 (decimal_date_time y mo d h mi s) rest (omega arith)) (ground arith),
)
