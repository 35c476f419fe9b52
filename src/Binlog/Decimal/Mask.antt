-- ===== src/Binlog/Decimal/Mask.antt =====
-- The mask over the bytes of a DECIMAL: the first bit is inverted, and all bits of a negative number.
use myduckserver.Base.{
  ℕ, ◌+◌, ◌-◌, ◌<◌, ◌≡◌, refl, ap, ap₂, ◌∙◌, suc, lt→ltb, arith, Bool, true, false, [], ◌∷◌, map,
  bit_xor, All, done, length,
}
use myduckserver.Base.Bits.{top_bit_clear, flip_top, invert_byte}
use myduckserver.Charset.{Bytes}
use myduckserver.Binlog.Decimal.{unmask}

abbrev pub invert_all : Bytes → Bytes
invert_all [] = []
invert_all (x ∷ xs) = (255 - x) ∷ invert_all xs

-- What MySQL stores for the bytes of a magnitude, whose first byte is below 128.
abbrev pub mask : Bool → Bytes → Bytes
mask negative [] = []
mask false (x ∷ xs) = (x + 128) ∷ xs
mask true (x ∷ xs) = (127 - x) ∷ invert_all xs

abbrev pub IsByte : ℕ → Type 0
IsByte b = b < 256

-- The bytes of a magnitude.
abbrev pub IsMagnitude : Bytes → Type 0
IsMagnitude [] = ⊥
IsMagnitude (x ∷ xs) = (x < 128) × All IsByte xs

map-invert_all : (xs : Bytes) → All IsByte xs → map (λ y. bit_xor y 0xff) (invert_all xs) ≡ xs
map-invert_all [] h = refl
map-invert_all (x ∷ xs) h =
    ap₂ ◌∷◌ (invert_byte (255 - x) (omega arith) ∙ omega arith) (map-invert_all xs h.1)

length-invert_all : (xs : Bytes) → length (invert_all xs) ≡ length xs
length-invert_all [] = refl
length-invert_all (x ∷ xs) = ap suc (length-invert_all xs)

pub length-mask : (negative : Bool) (d : Bytes) → length (mask negative d) ≡ length d
length-mask negative [] = refl
length-mask false (x ∷ xs) = refl
length-mask true (x ∷ xs) = ap suc (length-invert_all xs)

-- The decoder takes the mask off.
pub unmask-mask :
    (negative : Bool) (d : Bytes) → IsMagnitude d → unmask (mask negative d) ≡ done (negative, d)
unfolding unmask
unmask-mask negative [] h = absurd h
unmask-mask false (x ∷ xs) h =
    rw (top_bit_clear (x + 128) (omega arith), flip_top (x + 128) (omega arith)) (ground arith)
unmask-mask true (x ∷ xs) h =
    rw
      (
        top_bit_clear (127 - x) (omega arith),
        flip_top (127 - x) (omega arith),
        lt→ltb (127 - x) 128 (omega arith),
        invert_byte (127 - x + 128) (omega arith),
        map-invert_all xs h.1,
      )
      (ground arith)
