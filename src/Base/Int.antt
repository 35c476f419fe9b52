-- ===== src/Base/Int.antt =====
-- Signed integers over the native numbers, and the two's complement reading of a machine word.
use Prim.Native.Nat.{ℕ, zero, suc, ◌-◌, ◌/◌, ◌^◌}
use myduckserver.Base.Tests.{ltb, leb, if◌then◌else◌}

-- `negsuc n` is -(n + 1).
pub data ℤ : Type 0 where
  pos : ℕ → ℤ
  negsuc : ℕ → ℤ

-- -n
abbrev pub neg : ℕ → ℤ
neg zero = pos 0
neg (suc n) = negsuc n

-- a - b, as an integer
abbrev pub sub_ℕ : ℕ → ℕ → ℤ
sub_ℕ a b = if leb b a then pos (a - b) else negsuc (b - a - 1)

-- The integer that a pattern of `w` bits, below 2 ^ w, stands for: Go's int8(x), int16(x), ...
abbrev pub signed : ℕ → ℕ → ℤ
signed w v = if ltb v (2 ^ w / 2) then pos v else negsuc (2 ^ w - v - 1)
