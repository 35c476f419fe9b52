-- ===== src/Base/Bits.antt =====
-- Facts about the bits of a byte, by a check of all 256 values.
use Prim.Native.Nat.{ℕ, zero, suc, ◌+◌, ◌-◌, ◌<◌, bit_and, bit_xor}
use mathlib.Core.Path.{◌≡◌, refl}
use mathlib.Core.Bool.{Bool, true, false, ◌&&◌}
use native.Mathlib.Omega.{arith}
use myduckserver.Base.Tests.{ltb, leb, ◌==◌, ==_iff, if◌then◌else◌}

-- `p` holds of every number below the first argument.
unfoldable pub every_below : ℕ → (ℕ → Bool) → Bool
every_below zero p = true
every_below (suc n) p = p n && every_below n p

pub every_below-at : (n : ℕ) (p : ℕ → Bool) (i : ℕ) → every_below n p ≡ true → i < n → p i ≡ true
unfolding every_below
every_below-at zero p i h lt = absurd (omega arith)
every_below-at (suc n) p i h lt = ground (arith, every_below-at n p i)

abbrev same : Bool → Bool → Bool
same true c = c
same false true = false
same false false = true

same→eq : (b c : Bool) → same b c ≡ true → b ≡ c
same→eq b c h = ground arith

-- The top bit of a byte.
pub top_bit : (b : ℕ) → b < 256 → ltb 0 (bit_and b 128) ≡ leb 128 b
unfolding every_below
top_bit b h =
    same→eq _ _ (every_below-at 256 (λ i. same (ltb 0 (bit_and i 128)) (leb 128 i)) b refl h)

pub top_bit_clear : (b : ℕ) → b < 256 → (bit_and b 128 == 0) ≡ ltb b 128
unfolding every_below
top_bit_clear b h =
    same→eq _ _ (every_below-at 256 (λ i. same (bit_and i 128 == 0) (ltb i 128)) b refl h)

-- Inverting the top bit, and inverting all bits.
pub flip_top : (b : ℕ) → b < 256 → bit_xor b 128 ≡ (if ltb b 128 then b + 128 else b - 128)
unfolding every_below
flip_top b h =
    (==_iff _ _).0
      (every_below-at 256 (λ i. bit_xor i 128 == (if ltb i 128 then i + 128 else i - 128)) b refl h)

pub invert_byte : (b : ℕ) → b < 256 → bit_xor b 255 ≡ 255 - b
unfolding every_below
invert_byte b h = (==_iff _ _).0 (every_below-at 256 (λ i. bit_xor i 255 == 255 - i) b refl h)
