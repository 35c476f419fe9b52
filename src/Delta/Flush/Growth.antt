-- ===== src/Delta/Flush/Growth.antt =====
-- The size to which an appender grows.
use native.Mathlib.Nat.{pow-succ'}
use myduckserver.Base.{ℕ, zero, suc, ◌-◌, ◌*◌, ◌/◌, ◌^◌, ◌≤◌, ◌<◌, ◌≡◌, refl, arith}
use myduckserver.Delta.Flush.{len64, next_power}

len64_zero : (fuel : ℕ) → len64 fuel 0 ≡ 0
unfolding len64
len64_zero zero = refl
len64_zero (suc fuel) = refl

half_zero : (fuel n : ℕ) → n / 2 ≡ 0 → 2 ^ len64 fuel (n / 2) ≡ 1
half_zero fuel n h = rw (h, len64_zero fuel) refl

len64-bounds : (fuel n : ℕ) → n ≤ fuel → (n < 2 ^ len64 fuel n) × (0 < n → 2 ^ len64 fuel n ≤ 2 * n)
unfolding len64
len64-bounds zero n h = ground arith
len64-bounds (suc fuel) n h =
    let i = len64-bounds fuel (n / 2) (omega arith) in
    ground (arith, i, pow-succ' 2 (len64 fuel (n / 2)), half_zero fuel n)

-- For `n` rows, at least one, the size is a power of two (by its definition), not less than `n` and, from
-- two rows on, less than twice as much.
pub next_power-bounds : (n : ℕ) → 0 < n → (n ≤ next_power n) × (1 < n → next_power n < 2 * n)
unfolding next_power
next_power-bounds n h = let i = len64-bounds n (n - 1) (omega arith) in ground (arith, i)
