-- ===== src/Binlog/Decimal/Coefficient.antt =====
-- The digits of a DECIMAL in MySQL's layout, and the coefficient that CellValue (binlog/rbr.go) reads.
use mathlib.Core.List.{append_assoc, append-nil}
use myduckserver.Base.{
  ℕ, zero, suc, ◌+◌, ◌-◌, ◌*◌, ◌/◌, ◌%◌, ◌^◌, ◌≤◌, ◌<◌, ◌≡◌, refl, sym, ap, arith, true, ◌==◌,
  le→leb, List, [], ◌∷◌, ◌++◌, All, done, length, length-append,
}
use myduckserver.Charset.{Bytes}
use myduckserver.Binlog.Cell.{be_at}
use myduckserver.Binlog.Cell.Reads.{be_at-append}
use myduckserver.Binlog.Cell.Encode.{be_bytes, be_at-be_bytes}
use myduckserver.Binlog.Length.{dig2bytes}
use myduckserver.Binlog.Decimal.{Shape, decimal_shape, add_groups, spare, read_coefficient}
use myduckserver.Binlog.Decimal.Groups.{
  IsGroup, group_bytes, join_groups, add_groups-append, add_groups-group_bytes,
}

-- The layout of DECIMAL(precision, scale), in MySQL's terms: groups of nine digits from the point
-- outwards, and a byte for each two of the digits left over on either side.
abbrev pub layout : ℕ → ℕ → Shape
layout precision scale =
    let intg = precision - scale in
    record {
      scale = scale;
      whole = intg / 9;
      lead = (intg % 9 + 1) / 2;
      groups = scale / 9;
      rest = scale % 9;
      tail = (scale % 9 + 1) / 2;
      size = intg / 9 * 4 + (intg % 9 + 1) / 2 + scale / 9 * 4 + (scale % 9 + 1) / 2;
    }

dig2bytes-half : (n : ℕ) → n < 9 → dig2bytes n ≡ done ((n + 1) / 2)
unfolding dig2bytes
dig2bytes-half zero h = refl
dig2bytes-half (suc zero) h = refl
dig2bytes-half (suc (suc zero)) h = refl
dig2bytes-half (suc (suc (suc zero))) h = refl
dig2bytes-half (suc (suc (suc (suc zero)))) h = refl
dig2bytes-half (suc (suc (suc (suc (suc zero))))) h = refl
dig2bytes-half (suc (suc (suc (suc (suc (suc zero)))))) h = refl
dig2bytes-half (suc (suc (suc (suc (suc (suc (suc zero))))))) h = refl
dig2bytes-half (suc (suc (suc (suc (suc (suc (suc (suc zero)))))))) h = refl
dig2bytes-half (suc (suc (suc (suc (suc (suc (suc (suc (suc n))))))))) h = absurd (omega arith)

-- `n` digits fit the bytes that they are given, and leave the top bit clear.
digits-lt : (n v : ℕ) → n < 9 → v < 10 ^ n → v < 256 ^ ((n + 1) / 2)
digits-lt zero v h k = omega arith
digits-lt (suc zero) v h k = omega arith
digits-lt (suc (suc zero)) v h k = omega arith
digits-lt (suc (suc (suc zero))) v h k = omega arith
digits-lt (suc (suc (suc (suc zero)))) v h k = omega arith
digits-lt (suc (suc (suc (suc (suc zero))))) v h k = omega arith
digits-lt (suc (suc (suc (suc (suc (suc zero)))))) v h k = omega arith
digits-lt (suc (suc (suc (suc (suc (suc (suc zero))))))) v h k = omega arith
digits-lt (suc (suc (suc (suc (suc (suc (suc (suc zero)))))))) v h k = omega arith
digits-lt (suc (suc (suc (suc (suc (suc (suc (suc (suc n))))))))) v h k = absurd (omega arith)

pub decimal_shape-layout :
    (precision scale : ℕ)
    → precision < 256
    → scale ≤ precision
    → decimal_shape (precision * 256 + scale) ≡ done (layout precision scale)
unfolding decimal_shape
decimal_shape-layout precision scale h k =
    let p : (precision * 256 + scale) / 2 ^ 8 ≡ precision = omega arith in
    let s : (precision * 256 + scale) % 256 ≡ scale = omega arith in
    let intg = precision - scale in
    let whole : intg - intg / 9 * 9 ≡ intg % 9 = omega arith in
    let frac : scale - scale / 9 * 9 ≡ scale % 9 = omega arith in
    rw (
      p,
      s,
      le→leb scale precision k,
      whole,
      frac,
      dig2bytes-half (intg % 9) (omega arith),
      dig2bytes-half (scale % 9) (omega arith),
    )

-- The digits of a number of that layout: those left over at either end, and the groups between.
pub record Digits : Type 0 where
  pub first : ℕ
  pub whole : List ℕ
  pub fraction : List ℕ
  pub last : ℕ

pub record Fits (sh : Shape) (first_digits : ℕ) (n : Digits) : Type 0 where
  pub first_fits : n.first < 10 ^ first_digits
  pub whole_groups : All IsGroup n.whole
  pub whole_length : length n.whole ≡ sh.whole
  pub fraction_groups : All IsGroup n.fraction
  pub fraction_length : length n.fraction ≡ sh.groups
  pub last_fits : n.last < 10 ^ sh.rest

-- The bytes of the magnitude.
abbrev pub digit_bytes : Shape → Digits → Bytes
digit_bytes sh n =
    be_bytes sh.lead n.first
    ++ (group_bytes n.whole ++ (group_bytes n.fraction ++ be_bytes sh.tail n.last))

-- The unscaled number that the digits spell.
abbrev pub coefficient : Shape → Digits → ℕ
coefficient sh n = join_groups (join_groups n.first n.whole) n.fraction * 10 ^ sh.rest + n.last

pub length-be_bytes : (n v : ℕ) → length (be_bytes n v) ≡ n
length-be_bytes zero v = refl
length-be_bytes (suc n) v = ap suc (length-be_bytes n v)

pub length-group_bytes : (gs : List ℕ) → length (group_bytes gs) ≡ length gs * 4
length-group_bytes [] = refl
length-group_bytes (g ∷ gs) = omega (arith, length-group_bytes gs)

-- The groups behind the bytes `front`, with any bytes after them and any spare capacity.
add_groups_behind :
    (front after spares : Bytes) (gs : List ℕ) (at c : ℕ)
    → All IsGroup gs
    → at ≡ length front
    → add_groups ((front ++ (group_bytes gs ++ after)) ++ spares) at (length gs) c
      ≡ done (join_groups c gs)
add_groups_behind front after spares gs at c h e =
    let e' : at ≡ length front + 0 = omega arith in
    rw
      (
        e',
        append_assoc front (group_bytes gs ++ after) spares,
        append_assoc (group_bytes gs) after spares,
        add_groups-append front (group_bytes gs ++ (after ++ spares)) 0 (length gs) c,
      )
      (add_groups-group_bytes gs (after ++ spares) c h)

be_at_behind :
    (front : Bytes) (k v at : ℕ)
    → k ≤ 6
    → v < 256 ^ k
    → at ≡ length front
    → be_at (front ++ be_bytes k v) at k 0 ≡ done v
be_at_behind front k v at h lt e =
    let e' : at ≡ length front + 0 = omega arith in
    let r : be_bytes k v ++ [] ≡ be_bytes k v = append-nil (be_bytes k v) in
    rw (e', be_at-append front (be_bytes k v) 0 k 0, ← r) (be_at-be_bytes k v [] h lt)

nil_of_length : (l : List ℕ) → length l ≡ 0 → l ≡ []
nil_of_length [] h = refl
nil_of_length (x ∷ l) h = absurd (omega arith)

module _ (precision scale : ℕ) (n : Digits)
    (f : Fits (layout precision scale) ((precision - scale) % 9) n) where
  abbrev sh : Shape
  sh = layout precision scale

  abbrev head_bytes : Bytes
  head_bytes = be_bytes sh.lead n.first

  abbrev whole_bytes : Bytes
  whole_bytes = group_bytes n.whole

  abbrev after_whole : Bytes
  after_whole = group_bytes n.fraction ++ be_bytes sh.tail n.last

  first_read : be_at (digit_bytes sh n) 0 sh.lead 0 ≡ done n.first
  first_read =
      be_at-be_bytes sh.lead n.first (whole_bytes ++ after_whole) (omega arith)
        (digits-lt ((precision - scale) % 9) n.first (omega arith) f.first_fits)

  whole_read :
      add_groups (spare (digit_bytes sh n)) sh.lead sh.whole n.first
      ≡ done (join_groups n.first n.whole)
  unfolding spare
  whole_read = rw (← f.whole_length) (
      add_groups_behind head_bytes after_whole _ n.whole sh.lead n.first f.whole_groups
        (sym (length-be_bytes sh.lead n.first)))

  fraction_read :
      (c : ℕ)
      → add_groups (spare (digit_bytes sh n)) (sh.lead + sh.whole * 4) sh.groups c
        ≡ done (join_groups c n.fraction)
  unfolding spare
  fraction_read c =
      let front = head_bytes ++ whole_bytes in
      rw (← append_assoc head_bytes whole_bytes after_whole, ← f.fraction_length)
        (add_groups_behind front (be_bytes sh.tail n.last) _ n.fraction _ c f.fraction_groups (
          omega (
            arith,
            length-append head_bytes whole_bytes,
            length-be_bytes sh.lead n.first,
            length-group_bytes n.whole,
            f.whole_length,
          )))

  last_read :
      be_at (digit_bytes sh n) (sh.lead + sh.whole * 4 + sh.groups * 4) sh.tail 0 ≡ done n.last
  last_read =
      let front = head_bytes ++ (whole_bytes ++ group_bytes n.fraction) in
      let e : digit_bytes sh n ≡ front ++ be_bytes sh.tail n.last = simp append_assoc in
      rw e (
        be_at_behind front sh.tail n.last _ (omega arith)
          (digits-lt (scale % 9) n.last (omega arith) f.last_fits)
          (omega (
            arith,
            length-append head_bytes (whole_bytes ++ group_bytes n.fraction),
            length-append whole_bytes (group_bytes n.fraction),
            length-be_bytes sh.lead n.first,
            length-group_bytes n.whole,
            length-group_bytes n.fraction,
            f.whole_length,
            f.fraction_length,
          )))

  no_rest : (c : ℕ) → (sh.tail == 0) ≡ true → c ≡ c * 10 ^ sh.rest + n.last
  no_rest c h =
      let e : scale % 9 ≡ 0 = ground arith in
      let l : n.last < 10 ^ 0 = rw e at f.last_fits in rw e (ground arith)

  no_fraction : (c : ℕ) → (scale == 0) ≡ true → join_groups c n.fraction ≡ c
  no_fraction c h =
      let e : length n.fraction ≡ 0 = ground (arith, f.fraction_length) in
      rw (nil_of_length n.fraction e)

  -- The decoder's loops give the unscaled number that the digits spell.
  pub read_coefficient-digit_bytes :
      read_coefficient sh (digit_bytes sh n) ≡ done (coefficient sh n)
  unfolding read_coefficient
  read_coefficient-digit_bytes =
      let c = join_groups n.first n.whole in
      rw (first_read, whole_read)
        (ground
          (arith, fraction_read c, last_read, no_rest (join_groups c n.fraction), no_fraction c))
