-- ===== src/Binlog/Decimal.antt =====
-- CellValue of binlog/rbr.go at NEWDECIMAL: the masked digits, nine to four bytes, as one coefficient.
-- Arrow's FromBigInt and Negate, which bound the coefficient, are not modelled.
pub mod Mask
pub mod Groups
pub mod Pad
pub mod Coefficient
pub mod RoundTrip
use myduckserver.Base.{
  ℕ, zero, suc, ◌+◌, ◌-◌, ◌*◌, ◌/◌, ◌%◌, ◌^◌, bit_and, bit_xor, Bool, ltb, leb, ◌==◌, if◌then◌else◌,
  List, [], ◌∷◌, ◌++◌, map, length, replicate, get_elem?, done, failed, panicked, ◌>>=◌,
}
use myduckserver.Charset.{Bytes}
use myduckserver.Binlog.Cell.{
  Cell, unexpected_builder, fractional_digits, Value, decimal_value, Kind, decimal128, decimal256,
  Builder, append_as, be_at, slice, assert,
}
use myduckserver.Binlog.Length.{dig2bytes}

-- The layout of a DECIMAL(precision, scale): `whole` groups of nine digits before the point and
-- `whole_rest` digits left over, stored in `lead` bytes; the same after the point; `size` bytes.
pub record Shape : Type 0 where
  pub scale : ℕ
  pub whole : ℕ
  pub lead : ℕ
  pub groups : ℕ
  pub rest : ℕ
  pub tail : ℕ
  pub size : ℕ

-- Where the scale exceeds the precision, `for range intg0` makes no round (see Length).
unfoldable pub decimal_shape : ℕ → Cell Shape
decimal_shape m =
    let precision = m / 2 ^ 8 in
    let scale = m % 256 in
    let intg = precision - scale in
    let intg0 = intg / 9 in
    let intg0x = intg - intg0 * 9 in
    let frac0 = scale / 9 in
    let frac0x = scale - frac0 * 9 in
    let missing = scale - precision in
    if leb scale precision
    then (do
      i ← dig2bytes intg0x
      f ← dig2bytes frac0x
      done (record {
        scale = scale;
        whole = intg0;
        lead = i;
        groups = frac0;
        rest = frac0x;
        tail = f;
        size = intg0 * 4 + i + frac0 * 4 + f;
      }))
    else if missing % 9 == 0
    then (do
      f ← dig2bytes frac0x
      done (record {
        scale = scale;
        whole = 0;
        lead = 0;
        groups = frac0;
        rest = frac0x;
        tail = f;
        size = frac0 * 4 + f - missing / 9 * 4;
      }))
    else panicked

-- `d[0] ^= 0x80`, and all bytes inverted where the first bit was 0, which marks a negative number.
-- `d[0]` panics on an empty slice.
unfoldable pub unmask : Bytes → Cell (Bool × Bytes)
unmask [] = panicked
unmask (x ∷ xs) =
    let negative = bit_and x 0x80 == 0 in
    let d = bit_xor x 0x80 ∷ xs in
    done (negative, if negative then map (λ y. bit_xor y 0xff) d else d)

-- The capacity of `d` is 40: `d[pos:pos+4]` may reach beyond its length, into bytes that are 0.
unfoldable pub spare : Bytes → Bytes
spare d = d ++ replicate (40 - length d) 0

-- `k` groups of nine digits from `at` on, after the coefficient so far.
unfoldable pub add_groups : Bytes → ℕ → ℕ → ℕ → Cell ℕ
add_groups d at zero coeff = done coeff
add_groups d at (suc k) coeff = do
  val ← be_at d at 4 0
  add_groups d (at + 4) k (coeff * 1000000000 + val)

-- The multiplier of the switch over `frac0x`, which is 0 to 8: 10, 100, ..., 100_000_000.
unfoldable pub add_rest : Bytes → ℕ → ℕ → ℕ → ℕ → Cell ℕ
add_rest d at tail rest coeff =
    if tail == 0 then done coeff else (do val ← be_at d at tail 0; done (coeff * 10 ^ rest + val))

-- powerOf10s
abbrev pub power_of_10s : List ℕ
power_of_10s =
    1 ∷ 10 ∷ 100 ∷ 1000 ∷ 10000 ∷ 100000 ∷ 1000000 ∷ 10000000 ∷ 100000000 ∷ 1000000000 ∷ 10000000000
    ∷ 100000000000 ∷ 1000000000000 ∷ 10000000000000 ∷ 100000000000000 ∷ 1000000000000000
    ∷ 10000000000000000 ∷ 100000000000000000 ∷ 1000000000000000000 ∷ 10000000000000000000 ∷ []

-- `for fp+19 < desired`, then the table for what is left. A round lowers `desired - fp`, so fuel
-- above that difference is enough; without fuel the loop is left, which `pad_lem` shows not to occur.
unfoldable pub pad : ℕ → ℕ → ℕ → ℕ → Cell ℕ
unfolding assert
pad zero fp desired coeff = panicked
pad (suc fuel) fp desired coeff =
    let again = pad fuel (fp + 19) desired (coeff * 10000000000000000000) in
    if ltb (fp + 19) desired
    then again
    else (do p ← assert (get_elem? power_of_10s (desired - fp)); done (coeff * p))

-- FromBigInt of Arrow's decimals, which panics on more bits than `w`
unfoldable pub from_big_int : ℕ → ℕ → Cell ℕ
from_big_int w coeff = if ltb coeff (2 ^ w) then done coeff else panicked

-- The type switch over the builder; a number is negated behind FromBigInt.
unfoldable pub append_decimal : ℕ → Kind → Bool → ℕ → Builder → Cell (ℕ × Builder)
unfolding from_big_int
append_decimal l decimal128 negative coeff b = do
  n ← from_big_int 127 coeff
  b' ← append_as decimal128 (decimal_value negative n) b
  done (l, b')
append_decimal l decimal256 negative coeff b = do
  n ← from_big_int 255 coeff
  b' ← append_as decimal256 (decimal_value negative n) b
  done (l, b')
append_decimal l _ negative coeff b = failed (l, unexpected_builder)

-- The digits before the point and, where there is a scale, those after it.
unfoldable pub read_coefficient : Shape → Bytes → Cell ℕ
unfolding add_groups add_rest spare
read_coefficient sh d = do
  first ← be_at d 0 sh.lead 0
  coeff ← add_groups (spare d) sh.lead sh.whole first
  if sh.scale == 0 then done coeff else (do
    coeff' ← add_groups (spare d) (sh.lead + sh.whole * 4) sh.groups coeff
    add_rest d (sh.lead + sh.whole * 4 + sh.groups * 4) sh.tail sh.rest coeff')

-- The zero digits up to the scale that the Arrow array shares.
unfoldable pub align : Shape → Builder → ℕ → Cell ℕ
unfolding pad assert
align sh b coeff = if sh.scale == 0 then done coeff else (do
  desired ← assert b.decimal_scale
  if ltb sh.scale desired
      then pad (suc desired) sh.scale desired coeff
      else if ltb desired sh.scale
      then failed (sh.size, fractional_digits)
      else done coeff)

-- make([]byte, l, 40) panics on a length above the capacity.
unfoldable pub cell_decimal : Bytes → ℕ → ℕ → Builder → Cell (ℕ × Builder)
unfolding decimal_shape unmask read_coefficient align append_decimal
cell_decimal s at m b = do
  sh ← decimal_shape m
  src ← if leb sh.size 40 then slice s at sh.size else panicked
  r ← unmask src
  coeff ← read_coefficient sh r.1
  coeff' ← align sh b coeff
  append_decimal sh.size b.kind r.0 coeff' b
