-- ===== src/Binlog/Temporal.antt =====
-- CellValue of binlog/rbr.go at the temporal types. The calendar of time.Date and time.Unix is Go's;
-- what the code computes is the arguments that they are given.
pub mod Packed
pub mod RoundTrip
pub mod TimeRoundTrip
use myduckserver.Base.{
  ℕ, ◌+◌, ◌-◌, ◌*◌, ◌/◌, ◌%◌, ◌^◌, bit_and, Bool, true, false, not, ◌&&◌, ltb, ◌==◌, if◌then◌else◌,
  done, ◌>>=◌,
}
use myduckserver.Base.Int.{ℤ, pos, neg, sub_ℕ}
use myduckserver.Charset.{Bytes}
use myduckserver.Binlog.Cell.{
  Cell, Time, date_utc, unix, Value, at_time, micros, Kind, date32, timestamp_us, duration, Builder,
  append_as, byte_at, le_at, be_at,
}

unfoldable pub cell_timestamp : Bytes → ℕ → Builder → Cell (ℕ × Builder)
cell_timestamp d at b = do
  val ← le_at d at 4
  b' ← append_as timestamp_us (at_time (unix val 0)) b
  done (4, b')

unfoldable pub cell_date : Bytes → ℕ → Builder → Cell (ℕ × Builder)
cell_date d at b = do
  val ← le_at d at 3
  b' ← append_as date32 (at_time (date_utc (val / 2 ^ 9) (val / 2 ^ 5 % 16) (val % 32) 0 0 0 0)) b
  done (3, b')

-- The microseconds of a TIME given as a 3-byte number. With the top bit set the number stands for
-- -(2 ^ 24 - raw), and Go's `/` and `%` round towards zero: `hour` is the negated quotient, while
-- `minute` and `second`, negated once more by the code, are not negative.
unfoldable pub time_micros : Bool → ℕ → ℤ
time_micros true raw =
    let val = 2 ^ 24 - raw in
    sub_ℕ ((val % 10000 / 100 * 60 + val % 100) * 1000000) (val / 10000 * 3600 * 1000000)
time_micros false raw = pos ((raw / 10000 * 3600 + raw % 10000 / 100 * 60 + raw % 100) * 1000000)

unfoldable pub cell_time : Bytes → ℕ → Builder → Cell (ℕ × Builder)
unfolding time_micros
cell_time d at b = do
  top ← byte_at d (at + 2)
  raw ← le_at d at 3
  b' ← append_as duration (micros (time_micros (ltb 0 (bit_and top 128)) raw)) b
  done (3, b')

unfoldable pub date_time_parts : ℕ → Time
date_time_parts val =
    let d = val / 1000000 in
    let t = val % 1000000 in
    date_utc (d / 10000) (d % 10000 / 100) (d % 100) (t / 10000) (t % 10000 / 100) (t % 100) 0

unfoldable pub cell_date_time : Bytes → ℕ → Builder → Cell (ℕ × Builder)
unfolding date_time_parts
cell_date_time d at b = do
  val ← le_at d at 8
  b' ← append_as timestamp_us (at_time (date_time_parts val)) b
  done (8, b')

-- The fraction after a TIMESTAMP or DATETIME with `m` decimals, in microseconds, and its size.
unfoldable pub read_fraction : Bytes → ℕ → ℕ → Cell (ℕ × ℕ)
read_fraction d at m =
    if m == 1
    then (do x ← be_at d at 1 0; done (x / 10 * 100000, 1))
    else if m == 2
    then (do x ← be_at d at 1 0; done (x * 10000, 1))
    else if m == 3
    then (do x ← be_at d at 2 0; done (x / 10 * 1000, 2))
    else if m == 4
    then (do x ← be_at d at 2 0; done (x * 100, 2))
    else if m == 5
    then (do x ← be_at d at 3 0; done (x / 10 * 10, 3))
    else if m == 6
    then (do x ← be_at d at 3 0; done (x * 1, 3))
    else done (0, 0)

unfoldable pub cell_timestamp2 : Bytes → ℕ → ℕ → Builder → Cell (ℕ × Builder)
unfolding read_fraction
cell_timestamp2 d at m b = do
  second ← be_at d at 4 0
  frac ← read_fraction d (at + 4) m
  b' ← append_as timestamp_us (at_time (unix second (frac.0 * 1000))) b
  done (4 + frac.1, b')

-- The calendar fields in the 5 bytes of a DATETIME, `- uint64(0x8000000000)` wrapping at 64 bits.
unfoldable pub date_time2_parts : ℕ → ℕ → Time
date_time2_parts raw frac =
    let ymdhms = (raw + 2 ^ 64 - 0x8000000000) % 2 ^ 64 in
    let ymd = ymdhms / 2 ^ 17 in
    let ym = ymd / 2 ^ 5 in
    let hms = ymdhms % 2 ^ 17 in
    date_utc (ym / 13) (ym % 13) (ymd % 2 ^ 5) (hms / 2 ^ 12) (hms / 2 ^ 6 % 2 ^ 6) (hms % 2 ^ 6)
      (frac * 1000)

unfoldable pub cell_date_time2 : Bytes → ℕ → ℕ → Builder → Cell (ℕ × Builder)
unfolding read_fraction date_time2_parts
cell_date_time2 d at m b = do
  raw ← be_at d at 5 0
  frac ← read_fraction d (at + 5) m
  b' ← append_as timestamp_us (at_time (date_time2_parts raw frac.0)) b
  done (5 + frac.1, b')

-- The borrow of a negative TIME with a nonzero fraction of `n` values: the fraction and `hms`.
unfoldable pub borrow : Bool → ℕ → ℕ → ℕ → ℕ × ℕ
borrow negative n frac hms =
    if negative && not (frac == 0) then (n - frac, hms - 1) else (frac, hms)

-- The fraction of a TIME with `m` decimals, in microseconds, and `hms` after the borrow.
unfoldable pub time2_fraction : Bytes → ℕ → ℕ → Bool → ℕ → Cell (ℕ × ℕ)
unfolding borrow
time2_fraction d at m negative hms =
    if m == 1
    then (do f ← be_at d at 1 0; let r = borrow negative 0x100 f hms; done (r.0 / 10 * 100000, r.1))
    else if m == 2
    then (do f ← be_at d at 1 0; let r = borrow negative 0x100 f hms; done (r.0 * 10000, r.1))
    else if m == 3
    then (do f ← be_at d at 2 0; let r = borrow negative 0x10000 f hms; done (r.0 / 10 * 1000, r.1))
    else if m == 4
    then (do f ← be_at d at 2 0; let r = borrow negative 0x10000 f hms; done (r.0 * 100, r.1))
    else if m == 5
    then (do f ← be_at d at 3 0; let r = borrow negative 0x1000000 f hms; done (r.0 / 10 * 10, r.1))
    else if m == 6
    then (do f ← be_at d at 3 0; let r = borrow negative 0x1000000 f hms; done (r.0 * 1, r.1))
    else done (0, hms)

-- The microseconds of the magnitude `hms` and the fraction, with the sign.
unfoldable pub time2_micros : Bool → ℕ → ℕ → ℤ
time2_micros negative hms frac =
    let hour = hms / 2 ^ 12 % 2 ^ 10 in
    let minute = hms / 2 ^ 6 % 2 ^ 6 in
    let second = hms % 2 ^ 6 in
    let magnitude = (hour * 3600 + minute * 60 + second) * 1000000 + frac in
    if negative then neg magnitude else pos magnitude

unfoldable pub cell_time2 : Bytes → ℕ → ℕ → Builder → Cell (ℕ × Builder)
unfolding time2_fraction time2_micros
cell_time2 d at m b = do
  raw ← be_at d at 3 0
  let negative = ltb raw 0x800000
  let hms = if negative then 0x800000 - raw else raw - 0x800000
  r ← time2_fraction d (at + 3) m negative hms
  b' ← append_as duration (micros (time2_micros negative r.1 r.0)) b
  done (3 + (m + 1) / 2, b')
