-- ===== src/Binlog/Decimal/Groups.antt =====
-- The digits of a DECIMAL in groups of nine, and what the decoder's loops make of them.
use native.Mathlib.Nat.{add_assoc}
use myduckserver.Base.{
  ℕ, zero, suc, ◌+◌, ◌*◌, ◌<◌, ◌≡◌, refl, arith, List, [], ◌∷◌, ◌++◌, All, done, length,
}
use myduckserver.Charset.{Bytes}
use myduckserver.Binlog.Cell.Reads.{be_at-append}
use myduckserver.Binlog.Cell.Encode.{be_bytes, be_at-be_bytes}
use myduckserver.Binlog.Decimal.{add_groups}

-- Nine digits in four bytes.
abbrev pub IsGroup : ℕ → Type 0
IsGroup g = g < 1000000000

abbrev pub group_bytes : List ℕ → Bytes
group_bytes [] = []
group_bytes (g ∷ gs) = be_bytes 4 g ++ group_bytes gs

-- The number that the groups continue.
abbrev pub join_groups : ℕ → List ℕ → ℕ
join_groups c [] = c
join_groups c (g ∷ gs) = join_groups (c * 1000000000 + g) gs

pub add_groups-append :
    (front d : Bytes) (i k c : ℕ)
    → add_groups (front ++ d) (length front + i) k c ≡ add_groups d i k c
unfolding add_groups
add_groups-append front d i zero c = refl
add_groups-append front d i (suc k) c = simp (
  be_at-append front d i 4 0,
  add_assoc (length front) i 4,
  λ (n : ℕ). add_groups-append front d (i + 4) k n,
)

pub add_groups-group_bytes :
    (gs : List ℕ) (rest : Bytes) (c : ℕ)
    → All IsGroup gs
    → add_groups (group_bytes gs ++ rest) 0 (length gs) c ≡ done (join_groups c gs)
unfolding add_groups
add_groups-group_bytes [] rest c h = refl
add_groups-group_bytes (g ∷ gs) rest c h =
    rw
      (
        be_at-be_bytes 4 g (group_bytes gs ++ rest) (omega arith) (omega arith),
        add_groups-append (be_bytes 4 g) (group_bytes gs ++ rest) 0 (length gs)
            (c * 1000000000 + g),
      )
      (add_groups-group_bytes gs rest (c * 1000000000 + g) h.1)
