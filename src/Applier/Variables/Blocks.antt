-- ===== src/Applier/Variables/Blocks.antt =====
-- What parseQueryEventVars reads of a block that begins with the flags and the SQL mode, as MySQL writes it.
use native.Mathlib.Nat.{pow-suc}
use myduckserver.Base.{
  ℕ, zero, suc, ◌-◌, ◌^◌, ◌/◌, ◌%◌, ◌<◌, ◌≤◌, some, ◌∷◌, ◌++◌, drop, ◌≡◌, refl, sym, ◌∙◌, done,
  arith,
}
use myduckserver.Charset.{Bytes}
use myduckserver.Binlog.Cell.Encode.{le_bytes}
use myduckserver.Applier.Variables.{
  QueryVar, flags2_var, sql_mode_var, other_var, le_value, vars_loop,
}

pub le_value-le_bytes :
    (n k : ℕ) (rest : Bytes) → k < 256 ^ n → le_value n (le_bytes n k ++ rest) ≡ some k
unfolding le_value
le_value-le_bytes zero k rest h = ground arith
le_value-le_bytes (suc n) k rest h =
    rw (le_value-le_bytes n (k / 256) rest (omega (arith, pow-suc 256 n))) (ground arith)

module _ (kind : ℕ → QueryVar) where
  flags_step :
      (n left k : ℕ) (code : ℕ) (rest : Bytes) (flags mode f : ℕ)
      → kind code ≡ flags2_var
      → left - 4 ≡ k
      → le_value 4 rest ≡ some f
      → vars_loop kind (suc n) (suc left) (code ∷ rest) flags mode
        ≡ vars_loop kind n k (drop 4 rest) f mode
  unfolding vars_loop
  flags_step n left k code rest flags mode f h l q = rw (h, vars_loop) (rw (q, l) refl)

  mode_step :
      (n left : ℕ) (code : ℕ) (rest : Bytes) (flags mode m : ℕ)
      → kind code ≡ sql_mode_var
      → le_value 8 rest ≡ some m
      → vars_loop kind (suc n) (suc left) (code ∷ rest) flags mode
        ≡ vars_loop kind n left rest flags m
  unfolding vars_loop
  mode_step n left code rest flags mode m h q = rw (h, vars_loop) (rw q refl)

  other_step :
      (n left : ℕ) (code : ℕ) (rest : Bytes) (flags mode : ℕ)
      → kind code ≡ other_var
      → vars_loop kind (suc n) (suc left) (code ∷ rest) flags mode ≡ done (flags, mode)
  unfolding vars_loop
  other_step n left code rest flags mode h = rw (h, vars_loop) refl

  -- The flags and the mode: the turns for their codes.
  block_read :
      (n left flags_code mode_code flags mode : ℕ) (rest : Bytes)
      → kind flags_code ≡ flags2_var
      → kind mode_code ≡ sql_mode_var
      → 6 ≤ left
      → flags < 256 ^ 4
      → mode < 256 ^ 8
      → vars_loop kind
          (suc (suc n))
          (suc left)
          (flags_code ∷ (le_bytes 4 flags ++ (mode_code ∷ (le_bytes 8 mode ++ rest))))
          0
          0
        ≡ vars_loop kind n (suc (left - 6)) (le_bytes 8 mode ++ rest) flags mode
  block_read n left flags_code mode_code flags mode rest h k l hf hm =
      flags_step (suc n) left (suc (suc (left - 6))) flags_code _ 0 0 flags h (omega (arith, l))
        (le_value-le_bytes 4 flags (mode_code ∷ (le_bytes 8 mode ++ rest)) hf)
      ∙ mode_step n (suc (left - 6)) mode_code (le_bytes 8 mode ++ rest) flags 0 mode k
          (le_value-le_bytes 8 mode rest hm)

-- Behind the mode, the parser goes on with the mode's own bytes. Where the first of them is no code, the flags
-- and the mode are those that were written, if the block is long enough and three turns are given.
pub vars_loop-le_bytes :
    (kind : ℕ → QueryVar) (n left flags_code mode_code flags mode : ℕ) (rest : Bytes)
    → kind flags_code ≡ flags2_var
    → kind mode_code ≡ sql_mode_var
    → 6 ≤ left
    → flags < 256 ^ 4
    → mode < 256 ^ 8
    → kind (mode % 256) ≡ other_var
    → vars_loop kind
        (suc (suc (suc n)))
        (suc left)
        (flags_code ∷ (le_bytes 4 flags ++ (mode_code ∷ (le_bytes 8 mode ++ rest))))
        0
        0
      ≡ done (flags, mode)
vars_loop-le_bytes kind n left flags_code mode_code flags mode rest h k l hf hm ho =
    block_read kind (suc n) left flags_code mode_code flags mode rest h k l hf hm
    ∙ other_step kind n (left - 6) (mode % 256) _ flags mode ho

zero_read :
    (kind : ℕ → QueryVar) (n left mode_code f : ℕ) (rest : Bytes)
    → kind 0 ≡ flags2_var
    → kind mode_code ≡ sql_mode_var
    → 6 ≤ left
    → f < 256 ^ 4
    → vars_loop kind
        (suc (suc (suc n)))
        (suc left)
        (0 ∷ (le_bytes 4 f ++ (mode_code ∷ (le_bytes 8 0 ++ rest))))
        0
        0
      ≡ vars_loop kind n (left - 6 - 4) (0 ∷ 0 ∷ 0 ∷ rest) 0 0
unfolding le_value
zero_read kind n left mode_code f rest h k l b =
    block_read kind (suc n) left 0 mode_code f 0 rest h k l b (omega arith)
    ∙ flags_step kind n (left - 6) (left - 6 - 4) 0 (0 ∷ 0 ∷ 0 ∷ 0 ∷ 0 ∷ 0 ∷ 0 ∷ rest) f 0 0 h refl
        refl

-- Where the flags' code is 0, as it is in MySQL, and the mode is 0, the zeros of the mode are taken for flags:
-- what comes out does not depend on the flags that were written.
pub vars_loop_zero_mode :
    (kind : ℕ → QueryVar) (n left mode_code flags others : ℕ) (rest : Bytes)
    → kind 0 ≡ flags2_var
    → kind mode_code ≡ sql_mode_var
    → 6 ≤ left
    → flags < 256 ^ 4
    → others < 256 ^ 4
    → vars_loop kind
        (suc (suc (suc n)))
        (suc left)
        (0 ∷ (le_bytes 4 flags ++ (mode_code ∷ (le_bytes 8 0 ++ rest))))
        0
        0
      ≡ vars_loop kind
          (suc (suc (suc n)))
          (suc left)
          (0 ∷ (le_bytes 4 others ++ (mode_code ∷ (le_bytes 8 0 ++ rest))))
          0
          0
vars_loop_zero_mode kind n left mode_code flags others rest h k l hf hg =
    zero_read kind n left mode_code flags rest h k l hf
    ∙ sym (zero_read kind n left mode_code others rest h k l hg)
