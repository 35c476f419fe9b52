-- ===== src/Binlog/Temporal/TimeRoundTrip.antt =====
-- The TIME cells of CellValue (binlog/rbr.go), in the packing before MySQL 5.6 and in the present one.
use myduckserver.Base.{
  ℕ, zero, suc, ◌+◌, ◌-◌, ◌*◌, ◌/◌, ◌%◌, ◌^◌, ◌≤◌, ◌<◌, ◌≡◌, ◌↔◌, refl, arith, leb, Bool, true,
  false, if◌then◌else◌, ◌++◌, done, sym, ap, ◌∙◌, List, [], ◌∷◌,
}
use myduckserver.Base.Int.{ℤ, pos, neg, sub_ℕ}
use myduckserver.Base.Bits.{top_bit}
use myduckserver.Charset.{Bytes}
use myduckserver.Binlog.Cell.{Cell, Value, micros, duration, Builder, append_as, be_at, byte_at}
use myduckserver.Binlog.Cell.Encode.{le_bytes, be_bytes, push, le_at-le_bytes}
use myduckserver.Binlog.Temporal.{cell_time, cell_time2, time_micros}
use myduckserver.Binlog.Temporal.Packed.{HasDecimals, fraction_size, fraction_unit}

-- The microseconds of a TIME.
abbrev pub time_value : Bool → ℕ → ℕ → ℕ → ℕ → ℤ
time_value negative h mi s us =
    let magnitude = (h * 3600 + mi * 60 + s) * 1000000 + us in
    if negative then neg magnitude else pos magnitude

-- The range of the fields of a TIME.
pub record IsTime (h mi s : ℕ) : Type 0 where
  pub hour : h ≤ 838
  pub minute : mi ≤ 59
  pub second : s ≤ 59

-- The packing of a TIME before MySQL 5.6: hhmmss in 3 bytes, in two's complement.
abbrev pub decimal_time : Bool → ℕ → ℕ → ℕ → ℕ
decimal_time negative h mi s =
    let v = h * 10000 + mi * 100 + s in if negative then 2 ^ 24 - v else v

decimal_time_digits :
    (h mi s : ℕ)
    → IsTime h mi s
    → ((h * 10000 + mi * 100 + s) / 10000 ≡ h)
      × ((h * 10000 + mi * 100 + s) % 10000 / 100 ≡ mi)
      × ((h * 10000 + mi * 100 + s) % 100 ≡ s)
decimal_time_digits h mi s t = omega arith

-- What the decoder makes of it: the hours carry the sign, the minutes and the seconds do not.
abbrev pub decoded_time : Bool → ℕ → ℕ → ℕ → ℤ
decoded_time true h mi s = sub_ℕ ((mi * 60 + s) * 1000000) (h * 3600 * 1000000)
decoded_time false h mi s = pos ((h * 3600 + mi * 60 + s) * 1000000)

time_micros-decimal_time :
    (negative : Bool) (h mi s : ℕ)
    → IsTime h mi s
    → time_micros negative (decimal_time negative h mi s) ≡ decoded_time negative h mi s
unfolding time_micros
time_micros-decimal_time true h mi s t =
    let v = h * 10000 + mi * 100 + s in
    let e : 2 ^ 24 - (2 ^ 24 - v) ≡ v = omega arith in
    let (eh, em, es) = decimal_time_digits h mi s t in rw (e, eh, em, es)
time_micros-decimal_time false h mi s t =
    let (eh, em, es) = decimal_time_digits h mi s t in rw (eh, em, es)

decimal_time-lt :
    (negative : Bool) (h mi s : ℕ)
    → IsTime h mi s
    → 0 < h * 10000 + mi * 100 + s
    → decimal_time negative h mi s < 256 ^ 3
decimal_time-lt negative h mi s t p = ground arith

decimal_time_sign :
    (negative : Bool) (h mi s : ℕ)
    → IsTime h mi s
    → 0 < h * 10000 + mi * 100 + s
    → leb 128 (decimal_time negative h mi s / 256 / 256 % 256) ≡ negative
decimal_time_sign true h mi s t p = ground arith
decimal_time_sign false h mi s t p = ground arith

-- A TIME in the packing before MySQL 5.6 is appended with the right value if it is not negative.
-- For a negative one the minutes and the seconds are added to the negated hours.
pub cell_time-decimal_time :
    (negative : Bool) (h mi s : ℕ) (rest : Bytes) (b : Builder)
    → IsTime h mi s
    → 0 < h * 10000 + mi * 100 + s
    → b.kind ≡ duration
    → cell_time (le_bytes 3 (decimal_time negative h mi s) ++ rest) 0 b
      ≡ done (3, push (micros (decoded_time negative h mi s)) b)
unfolding cell_time append_as byte_at
cell_time-decimal_time negative h mi s rest b t p k =
    let raw = decimal_time negative h mi s in
    rw
      (
        le_at-le_bytes 3 raw rest (decimal_time-lt negative h mi s t p),
        top_bit (raw / 256 / 256 % 256) (omega arith),
        decimal_time_sign negative h mi s t p,
        time_micros-decimal_time negative h mi s t,
      )
      (ground arith)

decoded_time_exact :
    (negative : Bool) (h mi s : ℕ)
    → (decoded_time negative h mi s ≡ time_value negative h mi s 0)
      ↔ ((negative ≡ true) → (mi ≡ 0) × (s ≡ 0))
decoded_time_exact true h mi s = (λ e _. ground arith, λ e. ground (arith, e refl))
decoded_time_exact false h mi s = (λ e f. cc, λ e. ground arith)

-- The last value of a list, where that is a duration.
abbrev last_duration : List Value → ℤ
last_duration [] = pos 0
last_duration (micros z ∷ []) = z
last_duration (_ ∷ []) = pos 0
last_duration (v ∷ (w ∷ vs)) = last_duration (w ∷ vs)

last_duration-append : (vs : List Value) (z : ℤ) → last_duration (vs ++ (micros z ∷ [])) ≡ z
last_duration-append [] z = refl
last_duration-append (v ∷ []) z = ground arith
last_duration-append (v ∷ (w ∷ vs)) z = ground (arith, last_duration-append (w ∷ vs) z)

abbrev appended : Cell (ℕ × Builder) → ℤ
appended (done (n, b)) = last_duration b.items
appended _ = pos 0

-- A TIME in the packing before MySQL 5.6 that is not zero is appended with its value exactly if it is
-- not negative or is a whole number of hours.
pub cell_time_exact :
    (negative : Bool) (h mi s : ℕ) (rest : Bytes) (b : Builder)
    → IsTime h mi s
    → 0 < h * 10000 + mi * 100 + s
    → b.kind ≡ duration
    → (cell_time (le_bytes 3 (decimal_time negative h mi s) ++ rest) 0 b
        ≡ done (3, push (micros (time_value negative h mi s 0)) b))
      ↔ ((negative ≡ true) → (mi ≡ 0) × (s ≡ 0))
cell_time_exact negative h mi s rest b t p k =
    let lem = cell_time-decimal_time negative h mi s rest b t p k in
    let exact = decoded_time_exact negative h mi s in
    (
      λ e. exact.0 (
          sym (last_duration-append b.items (decoded_time negative h mi s))
          ∙ ap appended (sym lem ∙ e)
          ∙ last_duration-append b.items (time_value negative h mi s 0)),
      λ e. lem ∙ ap (λ z. done (3, push (micros z) b)) (exact.1 e),
    )

-- my_time_packed_to_binary: hours, minutes and seconds above the fraction, as one signed number in
-- 3 bytes and those of the fraction, by an offset of 0x800000 in the upper 3.
abbrev pub packed_time : Bool → ℕ → ℕ → ℕ → ℕ → ℕ → ℕ
packed_time negative h mi s m us =
    let k = 256 ^ fraction_size m in
    let v = (h * 2 ^ 12 + mi * 2 ^ 6 + s) * k + us / fraction_unit m in
    if negative then 0x800000 * k - v else 0x800000 * k + v

-- The upper three bytes, and the bytes of the fraction after them.
be_at_split :
    (k v : ℕ) (rest : Bytes)
    → k ≤ 3
    → v < 256 ^ (3 + k)
    → (be_at (be_bytes (3 + k) v ++ rest) 0 3 0 ≡ done (v / 256 ^ k))
      × (be_at (be_bytes (3 + k) v ++ rest) 3 k 0 ≡ done (v % 256 ^ k))
unfolding be_at byte_at
be_at_split zero v rest h lt = ground arith
be_at_split (suc zero) v rest h lt = ground arith
be_at_split (suc (suc zero)) v rest h lt = ground arith
be_at_split (suc (suc (suc zero))) v rest h lt = ground arith
be_at_split (suc (suc (suc (suc k)))) v rest h lt = absurd (omega arith)

packed_time-lt :
    (negative : Bool) (h mi s m us : ℕ)
    → IsTime h mi s
    → HasDecimals m us
    → packed_time negative h mi s m us < 256 ^ (3 + fraction_size m)
packed_time-lt negative h mi s zero us t f = ground arith
packed_time-lt negative h mi s (suc zero) us t f = ground arith
packed_time-lt negative h mi s (suc (suc zero)) us t f = ground arith
packed_time-lt negative h mi s (suc (suc (suc zero))) us t f = ground arith
packed_time-lt negative h mi s (suc (suc (suc (suc zero)))) us t f = ground arith
packed_time-lt negative h mi s (suc (suc (suc (suc (suc zero))))) us t f = ground arith
packed_time-lt negative h mi s (suc (suc (suc (suc (suc (suc zero)))))) us t f = ground arith
packed_time-lt negative h mi s (suc (suc (suc (suc (suc (suc (suc m))))))) us t f =
    absurd (omega arith)

-- A TIME with up to six decimals, of either sign, is appended as its microseconds: the borrow that a
-- negative fraction asks for is undone, and the size counts the bytes of both parts.
pub cell_time2-packed_time :
    (negative : Bool) (h mi s m us : ℕ) (rest : Bytes) (b : Builder)
    → IsTime h mi s
    → HasDecimals m us
    → b.kind ≡ duration
    → cell_time2 (be_bytes (3 + fraction_size m) (packed_time negative h mi s m us) ++ rest) 0 m b
      ≡ done (3 + fraction_size m, push (micros (time_value negative h mi s us)) b)
unfolding cell_time2 append_as
cell_time2-packed_time negative h mi s zero us rest b t f k =
    let v = packed_time negative h mi s 0 us in
    let (hi, _) = be_at_split 0 v rest (omega arith) (packed_time-lt negative h mi s 0 us t f) in
    rw hi (ground arith)
cell_time2-packed_time negative h mi s (suc zero) us rest b t f k =
    let v = packed_time negative h mi s 1 us in
    let (hi, lo) = be_at_split 1 v rest (omega arith) (packed_time-lt negative h mi s 1 us t f) in
    rw (hi, lo) (ground arith)
cell_time2-packed_time negative h mi s (suc (suc zero)) us rest b t f k =
    let v = packed_time negative h mi s 2 us in
    let (hi, lo) = be_at_split 1 v rest (omega arith) (packed_time-lt negative h mi s 2 us t f) in
    rw (hi, lo) (ground arith)
cell_time2-packed_time negative h mi s (suc (suc (suc zero))) us rest b t f k =
    let v = packed_time negative h mi s 3 us in
    let (hi, lo) = be_at_split 2 v rest (omega arith) (packed_time-lt negative h mi s 3 us t f) in
    rw (hi, lo) (ground arith)
cell_time2-packed_time negative h mi s (suc (suc (suc (suc zero)))) us rest b t f k =
    let v = packed_time negative h mi s 4 us in
    let (hi, lo) = be_at_split 2 v rest (omega arith) (packed_time-lt negative h mi s 4 us t f) in
    rw (hi, lo) (ground arith)
cell_time2-packed_time negative h mi s (suc (suc (suc (suc (suc zero))))) us rest b t f k =
    let v = packed_time negative h mi s 5 us in
    let (hi, lo) = be_at_split 3 v rest (omega arith) (packed_time-lt negative h mi s 5 us t f) in
    rw (hi, lo) (ground arith)
cell_time2-packed_time negative h mi s (suc (suc (suc (suc (suc (suc zero)))))) us rest b t f k =
    let v = packed_time negative h mi s 6 us in
    let (hi, lo) = be_at_split 3 v rest (omega arith) (packed_time-lt negative h mi s 6 us t f) in
    rw (hi, lo) (ground arith)
cell_time2-packed_time negative h mi s (suc (suc (suc (suc (suc (suc (suc m))))))) us rest b t f k =
    absurd (omega arith)
