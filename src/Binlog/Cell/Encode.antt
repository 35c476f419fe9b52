-- ===== src/Binlog/Cell/Encode.antt =====
-- The byte layouts of MySQL that the theorems on CellValue start from: numbers in little and big
-- endian order, and signed numbers in two's complement.
use native.Mathlib.Nat.{pow-suc}
use myduckserver.Base.{ℕ, zero, suc, ◌-◌, ◌/◌, ◌%◌, ◌^◌, ◌≤◌, ◌<◌, ◌≡◌, arith, [], ◌∷◌, ◌++◌, done}
use myduckserver.Base.Int.{ℤ, pos, negsuc}
use myduckserver.Charset.{Bytes}
use myduckserver.Binlog.Cell.{Value, Builder, byte_at, le_at, be_at}
use myduckserver.Binlog.Cell.Reads.{le_at-append}

-- `n` bytes, the lowest first
abbrev pub le_bytes : ℕ → ℕ → Bytes
le_bytes zero v = []
le_bytes (suc n) v = (v % 256) ∷ le_bytes n (v / 256)

-- `n` bytes, the highest first
abbrev pub be_bytes : ℕ → ℕ → Bytes
be_bytes zero v = []
be_bytes (suc n) v = (v / 256 ^ n % 256) ∷ be_bytes n v

-- The pattern of `w` bits that stands for an integer.
abbrev pub twos_complement : ℕ → ℤ → ℕ
twos_complement w (pos n) = n
twos_complement w (negsuc n) = 2 ^ w - 1 - n

-- The integers of `w` bits.
abbrev pub InRange : ℕ → ℤ → Type 0
InRange w (pos n) = n < 2 ^ w / 2
InRange w (negsuc n) = n < 2 ^ w / 2

-- The builder with one more value.
abbrev pub push : Value → Builder → Builder
push v b = record b { items = b.items ++ (v ∷ []) }

pub le_at-le_bytes :
    (n v : ℕ) (rest : Bytes) → v < 256 ^ n → le_at (le_bytes n v ++ rest) 0 n ≡ done v
unfolding le_at byte_at
le_at-le_bytes zero v rest h = ground arith
le_at-le_bytes (suc n) v rest h =
    let ih = le_at-le_bytes n (v / 256) rest (omega (arith, pow-suc 256 n)) in
    rw (le_at-append (v % 256 ∷ []) (le_bytes n (v / 256) ++ rest) 0 n, ih) (ground arith)

-- Up to six bytes, by the digits of the number.
pub be_at-be_bytes :
    (n v : ℕ) (rest : Bytes) → n ≤ 6 → v < 256 ^ n → be_at (be_bytes n v ++ rest) 0 n 0 ≡ done v
unfolding be_at byte_at
be_at-be_bytes zero v rest h k = ground arith
be_at-be_bytes (suc zero) v rest h k = ground arith
be_at-be_bytes (suc (suc zero)) v rest h k = ground arith
be_at-be_bytes (suc (suc (suc zero))) v rest h k = ground arith
be_at-be_bytes (suc (suc (suc (suc zero)))) v rest h k = ground arith
be_at-be_bytes (suc (suc (suc (suc (suc zero))))) v rest h k = ground arith
be_at-be_bytes (suc (suc (suc (suc (suc (suc zero)))))) v rest h k = ground arith
be_at-be_bytes (suc (suc (suc (suc (suc (suc (suc n))))))) v rest h k = absurd (omega arith)
