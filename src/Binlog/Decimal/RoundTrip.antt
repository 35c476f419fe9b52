-- ===== src/Binlog/Decimal/RoundTrip.antt =====
-- The DECIMAL cells of CellValue (binlog/rbr.go) give back the number that MySQL wrote.
use myduckserver.Base.{
  ℕ, zero, suc, ◌+◌, ◌-◌, ◌*◌, ◌/◌, ◌%◌, ◌^◌, ◌≤◌, ◌<◌, ◌≡◌, refl, arith, Bool, ◌==◌, le→leb, some,
  List, [], ◌∷◌, ◌++◌, All, done, length, length-append, Bool-cases, ◌⊎◌, inl, inr,
}
use myduckserver.Charset.{Bytes}
use myduckserver.Binlog.Cell.{decimal_value, Kind, decimal128, decimal256, Builder, append_as}
use myduckserver.Binlog.Cell.Reads.{slice_front}
use myduckserver.Binlog.Cell.Encode.{be_bytes, push}
use myduckserver.Binlog.Decimal.{Shape, append_decimal, from_big_int, cell_decimal}
use myduckserver.Binlog.Decimal.Mask.{mask, IsByte, IsMagnitude, length-mask, unmask-mask}
use myduckserver.Binlog.Decimal.Groups.{IsGroup, group_bytes}
use myduckserver.Binlog.Decimal.Coefficient.{
  layout, Digits, Fits, digit_bytes, coefficient, decimal_shape-layout, length-be_bytes,
  length-group_bytes, read_coefficient-digit_bytes,
}
use myduckserver.Binlog.Decimal.Pad.{align_fits}

All-append : (xs ys : Bytes) → All IsByte xs → All IsByte ys → All IsByte (xs ++ ys)
All-append [] ys h k = k
All-append (x ∷ xs) ys h k = (h.0, All-append xs ys h.1 k)

IsMagnitude-append : (xs ys : Bytes) → IsMagnitude xs → All IsByte ys → IsMagnitude (xs ++ ys)
IsMagnitude-append [] ys h k = absurd h
IsMagnitude-append (x ∷ xs) ys h k = (h.0, All-append xs ys h.1 k)

be_bytes-IsByte : (n v : ℕ) → All IsByte (be_bytes n v)
be_bytes-IsByte zero v = tt
be_bytes-IsByte (suc n) v = (omega arith, be_bytes-IsByte n v)

group_bytes-IsByte : (gs : List ℕ) → All IsByte (group_bytes gs)
group_bytes-IsByte [] = tt
group_bytes-IsByte (g ∷ gs) =
    All-append (be_bytes 4 g) (group_bytes gs) (be_bytes-IsByte 4 g) (group_bytes-IsByte gs)

-- One to eight digits leave the top bit of their bytes clear.
digits-IsMagnitude : (n v : ℕ) → 0 < n → n < 9 → v < 10 ^ n → IsMagnitude (be_bytes ((n + 1) / 2) v)
digits-IsMagnitude zero v p h k = absurd (omega arith)
digits-IsMagnitude (suc zero) v p h k = omega arith
digits-IsMagnitude (suc (suc zero)) v p h k = omega arith
digits-IsMagnitude (suc (suc (suc zero))) v p h k = omega arith
digits-IsMagnitude (suc (suc (suc (suc zero)))) v p h k = omega arith
digits-IsMagnitude (suc (suc (suc (suc (suc zero))))) v p h k = omega arith
digits-IsMagnitude (suc (suc (suc (suc (suc (suc zero)))))) v p h k = omega arith
digits-IsMagnitude (suc (suc (suc (suc (suc (suc (suc zero))))))) v p h k = omega arith
digits-IsMagnitude (suc (suc (suc (suc (suc (suc (suc (suc zero)))))))) v p h k = omega arith
digits-IsMagnitude (suc (suc (suc (suc (suc (suc (suc (suc (suc n))))))))) v p h k =
    absurd (omega arith)

group-IsMagnitude : (g : ℕ) → IsGroup g → IsMagnitude (be_bytes 4 g)
group-IsMagnitude g h = omega arith

-- Groups, and digits left over after them: not all empty.
groups-IsMagnitude :
    (gs : List ℕ) (after : Bytes)
    → All IsGroup gs
    → All IsByte after
    → (length gs ≡ 0 → IsMagnitude after)
    → IsMagnitude (group_bytes gs ++ after)
groups-IsMagnitude [] after h k e = e refl
groups-IsMagnitude (g ∷ gs) after h k e =
    IsMagnitude-append (be_bytes 4 g) (group_bytes gs ++ after) (group-IsMagnitude g h.0)
      (All-append (group_bytes gs) after (group_bytes-IsByte gs) k)

module _ (precision scale : ℕ) (n : Digits)
    (f : Fits (layout precision scale) ((precision - scale) % 9) n) where
  abbrev sh : Shape
  sh = layout precision scale

  fraction-IsMagnitude : 0 < scale → IsMagnitude (group_bytes n.fraction ++ be_bytes sh.tail n.last)
  fraction-IsMagnitude h =
      groups-IsMagnitude n.fraction (be_bytes sh.tail n.last) f.fraction_groups
        (be_bytes-IsByte sh.tail n.last)
        (λ e.
          digits-IsMagnitude (scale % 9) n.last (omega (arith, f.fraction_length)) (omega arith)
            f.last_fits)

  fraction-IsByte : All IsByte (group_bytes n.fraction ++ be_bytes sh.tail n.last)
  fraction-IsByte =
      All-append (group_bytes n.fraction) (be_bytes sh.tail n.last) (group_bytes-IsByte n.fraction)
        (be_bytes-IsByte sh.tail n.last)

  digit_bytes-IsMagnitude : 0 < precision → scale ≤ precision → IsMagnitude (digit_bytes sh n)
  digit_bytes-IsMagnitude h k = elim (Bool-cases ((precision - scale) % 9 == 0)) [
    | inl e ↦
        let z : (precision - scale) % 9 ≡ 0 = ground arith in
        rw z (
          groups-IsMagnitude n.whole _ f.whole_groups fraction-IsByte
            (λ e'. fraction-IsMagnitude (omega (arith, f.whole_length))))
    | inr e ↦
        IsMagnitude-append (be_bytes sh.lead n.first) _
          (digits-IsMagnitude ((precision - scale) % 9) n.first (ground arith) (omega arith)
            f.first_fits)
          (All-append (group_bytes n.whole) _ (group_bytes-IsByte n.whole) fraction-IsByte)
  ]

  length-digit_bytes : length (digit_bytes sh n) ≡ sh.size
  length-digit_bytes = omega (
    arith,
    length-append (be_bytes sh.lead n.first)
        (group_bytes n.whole ++ (group_bytes n.fraction ++ be_bytes sh.tail n.last)),
    length-append (group_bytes n.whole) (group_bytes n.fraction ++ be_bytes sh.tail n.last),
    length-append (group_bytes n.fraction) (be_bytes sh.tail n.last),
    length-be_bytes sh.lead n.first,
    length-be_bytes sh.tail n.last,
    length-group_bytes n.whole,
    length-group_bytes n.fraction,
    f.whole_length,
    f.fraction_length,
  )

-- The coefficient fits the builder, an Arrow decimal builder of 128 or 256 bits.
abbrev pub FitsBuilder : Kind → ℕ → Type 0
FitsBuilder k c = ((k ≡ decimal128) × (c < 2 ^ 127)) ⊎ ((k ≡ decimal256) × (c < 2 ^ 255))

append_decimal_lem :
    (l : ℕ) (negative : Bool) (c : ℕ) (b : Builder)
    → FitsBuilder b.kind c
    → append_decimal l b.kind negative c b ≡ done (l, push (decimal_value negative c) b)
unfolding append_decimal append_as from_big_int
append_decimal_lem l negative c b (inl (k, h)) = ground arith
append_decimal_lem l negative c b (inr (k, h)) = ground arith

-- A DECIMAL(precision, scale) within MySQL's bounds, of either sign, is read from its masked bytes as
-- the sign and the unscaled number that its digits spell, times the power of ten that aligns it with
-- a larger scale of the Arrow array, where the column's scale is not 0 or the array's is, and where the
-- result fits the array's builder. What follows the cell is not looked at, and the size is that of the layout.
pub cell_decimal-mask :
    (precision scale desired : ℕ) (negative : Bool) (n : Digits) (rest : Bytes) (b : Builder)
    → 0 < precision
    → precision ≤ 65
    → scale ≤ precision
    → scale ≤ desired
    → (0 < scale) ⊎ (desired ≡ 0)
    → Fits (layout precision scale) ((precision - scale) % 9) n
    → FitsBuilder b.kind (coefficient (layout precision scale) n * 10 ^ (desired - scale))
    → b.decimal_scale ≡ some desired
    → cell_decimal
        (mask negative (digit_bytes (layout precision scale) n) ++ rest)
        0
        (precision * 256 + scale)
        b
      ≡ done (
        (layout precision scale).size,
        push
            (decimal_value negative
              (coefficient (layout precision scale) n * 10 ^ (desired - scale)))
            b,
      )
unfolding cell_decimal
cell_decimal-mask precision scale desired negative n rest b p0 p65 sp sd zero_scale f k ds =
    let sh = layout precision scale in
    let d = digit_bytes sh n in
    rw (
      decimal_shape-layout precision scale (omega arith) sp,
      le→leb sh.size 40 (omega arith),
      slice_front (mask negative d) rest sh.size
          (omega (arith, length-mask negative d, length-digit_bytes precision scale n f)),
      unmask-mask negative d (digit_bytes-IsMagnitude precision scale n f p0 sp),
      read_coefficient-digit_bytes precision scale n f,
      align_fits sh b desired (coefficient sh n) zero_scale sd ds,
      append_decimal_lem sh.size negative (coefficient sh n * 10 ^ (desired - scale)) b k,
    )
