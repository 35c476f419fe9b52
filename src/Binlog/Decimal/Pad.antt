-- ===== src/Binlog/Decimal/Pad.antt =====
-- The zero digits that align a DECIMAL with the scale of the Arrow array.
use native.Mathlib.Nat.{pow-suc, mul_assoc, zero-add}
use myduckserver.Base.Bits.{every_below, every_below-at}
use myduckserver.Base.{
  ℕ, zero, suc, ◌+◌, ◌-◌, ◌*◌, ◌^◌, ◌≤◌, ◌<◌, ◌≡◌, refl, ap, ◌∙◌, arith, ltb, Bool-cases, ◌⊎◌, inl,
  inr, Option, none, some, Bool, true, false, ◌==◌, ==_iff, get_elem?, done, failed, if◌then◌else◌,
}
use myduckserver.Binlog.Cell.{Builder, fractional_digits}
use myduckserver.Binlog.Decimal.{Shape, pad, power_of_10s, align}

abbrev holds : Option ℕ → ℕ → Bool
holds none v = false
holds (some x) v = x == v

is_some→eq : (o : Option ℕ) (v : ℕ) → holds o v ≡ true → o ≡ some v
is_some→eq none v h = cc
is_some→eq (some x) v h = ap some ((==_iff x v).0 h)

-- The table holds the powers of ten up to 10 ^ 19.
power_of_10s-pow : (n : ℕ) → n ≤ 19 → get_elem? power_of_10s n ≡ some (10 ^ n)
unfolding every_below
power_of_10s-pow n h =
    is_some→eq (get_elem? power_of_10s n) (10 ^ n)
      (every_below-at 20 (λ i. holds (get_elem? power_of_10s i) (10 ^ i)) n refl (omega arith))

pow-add : (m n : ℕ) → 10 ^ (m + n) ≡ 10 ^ m * 10 ^ n
pow-add zero n = omega (arith, ap (λ (k : ℕ). 10 ^ k) (zero-add n))
pow-add (suc m) n =
    let e : suc m + n ≡ suc (m + n) = omega arith in
    rw e (
      omega (
        arith,
        pow-add m n,
        pow-suc 10 m,
        pow-suc 10 (m + n),
        ap (λ (t : ℕ). t * 10 ^ n) (pow-suc 10 m),
      ))

pub pad_lem :
    (fuel fp desired coeff : ℕ)
    → fp < desired
    → desired - fp ≤ fuel
    → pad fuel fp desired coeff ≡ done (coeff * 10 ^ (desired - fp))
unfolding pad
pad_lem zero fp desired coeff h k = absurd (omega arith)
pad_lem (suc fuel) fp desired coeff h k = elim (Bool-cases (ltb (fp + 19) desired)) [
  | inl more ↦
      let e : desired - fp ≡ 19 + (desired - (fp + 19)) = ground arith in
      rw (more, e, pow-add 19 (desired - (fp + 19)))
        (pad_lem fuel (fp + 19) desired (coeff * 10000000000000000000) (ground arith) (omega arith)
          ∙ ap done (mul_assoc coeff (10 ^ 19) (10 ^ (desired - (fp + 19)))))
  | inr last ↦ rw (last, power_of_10s-pow (desired - fp) (ground arith))
]

pow_none : (a b : ℕ) → a ≤ b → 10 ^ (a - b) ≡ 1
pow_none a b h = let e : a - b ≡ 0 = omega arith in rw e

-- The coefficient is multiplied by the power of ten that its own scale lacks of the array's scale, and
-- an array of a smaller scale is an error, which carries the size of the cell.
pub align_lem :
    (sh : Shape) (b : Builder) (desired coeff : ℕ)
    → 0 < sh.scale
    → b.decimal_scale ≡ some desired
    → align sh b coeff ≡ (
        if ltb desired sh.scale
        then failed (sh.size, fractional_digits)
        else done (coeff * 10 ^ (desired - sh.scale)))
unfolding align
align_lem sh b desired coeff h e =
    ground (arith, pad_lem (suc desired) sh.scale desired coeff, pow_none desired sh.scale)

pub align_fits :
    (sh : Shape) (b : Builder) (desired coeff : ℕ)
    → (0 < sh.scale) ⊎ (desired ≡ 0)
    → sh.scale ≤ desired
    → b.decimal_scale ≡ some desired
    → align sh b coeff ≡ done (coeff * 10 ^ (desired - sh.scale))
unfolding align
align_fits sh b desired coeff z h e =
    ground (arith, pad_lem (suc desired) sh.scale desired coeff, pow_none desired sh.scale)
