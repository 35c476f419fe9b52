-- ===== src/Binlog/Temporal/Packed.antt =====
-- How MySQL packs TIMESTAMP, DATETIME and TIME with a fraction: the layout that the theorems on the
-- decoders start from.
use myduckserver.Base.{
  ℕ, zero, suc, ◌+◌, ◌-◌, ◌/◌, ◌%◌, ◌^◌, ◌≤◌, ◌<◌, ◌≡◌, arith, ◌++◌, done, length,
}
use myduckserver.Charset.{Bytes}
use myduckserver.Binlog.Cell.Reads.{be_at-append}
use myduckserver.Binlog.Cell.Encode.{be_bytes, be_at-be_bytes}
use myduckserver.Binlog.Temporal.{read_fraction}

-- The unit of the stored fraction, in microseconds: two decimals go to a byte.
abbrev pub fraction_unit : ℕ → ℕ
fraction_unit zero = 1000000
fraction_unit (suc zero) = 10000
fraction_unit (suc (suc zero)) = 10000
fraction_unit (suc (suc (suc zero))) = 100
fraction_unit (suc (suc (suc (suc zero)))) = 100
fraction_unit _ = 1

-- A fraction of a second, in microseconds, with at most `m` decimals.
pub record HasDecimals (m us : ℕ) : Type 0 where
  pub at_most_six : m ≤ 6
  pub below_second : us < 1000000
  pub whole_units : us % 10 ^ (6 - m) ≡ 0

abbrev pub fraction_size : ℕ → ℕ
fraction_size m = (m + 1) / 2

abbrev pub fraction_bytes : ℕ → ℕ → Bytes
fraction_bytes m us = be_bytes (fraction_size m) (us / fraction_unit m)

-- The fraction after the bytes `front` is read back.
pub read_fraction-fraction_bytes :
    (front rest : Bytes) (m us : ℕ)
    → HasDecimals m us
    → read_fraction (front ++ (fraction_bytes m us ++ rest)) (length front + 0) m
      ≡ done (us, fraction_size m)
unfolding read_fraction
read_fraction-fraction_bytes front rest zero us h = ground arith
read_fraction-fraction_bytes front rest (suc zero) us h = ground (
  arith,
  be_at-append front (fraction_bytes 1 us ++ rest) 0 1 0,
  be_at-be_bytes 1 (us / 10000) rest,
)
read_fraction-fraction_bytes front rest (suc (suc zero)) us h = ground (
  arith,
  be_at-append front (fraction_bytes 2 us ++ rest) 0 1 0,
  be_at-be_bytes 1 (us / 10000) rest,
)
read_fraction-fraction_bytes front rest (suc (suc (suc zero))) us h = ground (
  arith,
  be_at-append front (fraction_bytes 3 us ++ rest) 0 2 0,
  be_at-be_bytes 2 (us / 100) rest,
)
read_fraction-fraction_bytes front rest (suc (suc (suc (suc zero)))) us h = ground (
  arith,
  be_at-append front (fraction_bytes 4 us ++ rest) 0 2 0,
  be_at-be_bytes 2 (us / 100) rest,
)
read_fraction-fraction_bytes front rest (suc (suc (suc (suc (suc zero))))) us h =
    ground (arith, be_at-append front (fraction_bytes 5 us ++ rest) 0 3 0, be_at-be_bytes 3 us rest)
read_fraction-fraction_bytes front rest (suc (suc (suc (suc (suc (suc zero)))))) us h =
    ground (arith, be_at-append front (fraction_bytes 6 us ++ rest) 0 3 0, be_at-be_bytes 3 us rest)
read_fraction-fraction_bytes front rest (suc (suc (suc (suc (suc (suc (suc m))))))) us h =
    absurd (omega arith)
