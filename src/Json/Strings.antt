-- ===== src/Json/Strings.antt =====
-- The length in front of a string, of binlogreplication/binlog_json_serialization.go, read back.
use mathlib.Core.List.{append_assoc}
use myduckserver.Base.{
  ℕ, ◌+◌, ◌-◌, ◌*◌, ◌/◌, ◌%◌, ◌^◌, ◌≤◌, ◌<◌, ltb, if◌then◌else◌, Bool, true, false, Option, none,
  some, [], ◌∷◌, ◌++◌, length, done, ◌≡◌, refl, ap, ◌∙◌, arith,
}
use myduckserver.Charset.{Bytes}
use myduckserver.Json.{string, append_string_length}
use myduckserver.Json.Values.{encode_string, encode_json_value}

-- MySQL's variable length: seven bits in each byte, the lowest first, and a top bit that says that one more
-- byte follows, up to three of them. The length, and what stands behind it.
abbrev pub read_string_length : Bytes → Option (ℕ × Bytes)
read_string_length [] = none
read_string_length (a ∷ d) = if ltb a 128 then some (a, d) else second (a - 128) d
  where
    third : ℕ → Bytes → Option (ℕ × Bytes)
    third n [] = none
    third n (c ∷ d) = if ltb c 128 then some (n + c * 2 ^ 14, d) else none

    second : ℕ → Bytes → Option (ℕ × Bytes)
    second n [] = none
    second n (b ∷ d) =
        let long = third (n + (b - 128) * 2 ^ 7) d in
        if ltb b 128 then some (n + b * 2 ^ 7, d) else long

module _ (bytes rest : Bytes) (n : ℕ) where
  abbrev ReadsBack : Bytes → Type 0
  ReadsBack buffer =
      (append_string_length bytes n ≡ done (bytes ++ buffer))
      × (read_string_length (buffer ++ rest) ≡ some (n, rest))

  one_byte : n ≤ 127 → ReadsBack ((n % 256) ∷ [])
  unfolding append_string_length
  one_byte h = ground arith

  two_bytes : 127 < n → n ≤ 16383 → ReadsBack ((n % 128 + 128) ∷ (n / 2 ^ 7 % 256) ∷ [])
  unfolding append_string_length
  two_bytes l h = ground arith

  three_bytes :
      16383 < n
      → n ≤ 2097151
      → ReadsBack ((n % 128 + 128) ∷ (n / 2 ^ 7 % 128 + 128) ∷ (n / 2 ^ 14 % 256) ∷ [])
  unfolding append_string_length
  three_bytes l h = ground arith

-- A length of at most 2,097,151 is appended in a form that the reader of MySQL's format gives back.
append_string_length-read_string_length :
    (bytes rest : Bytes) (n : ℕ) → n ≤ 2097151 → (buffer : Bytes) × ReadsBack bytes rest n buffer
append_string_length-read_string_length bytes rest n h =
    by_length (ltb 127 n) (ltb 16383 n) refl refl
  where
    by_length :
        (b c : Bool)
        → ltb 127 n ≡ b
        → ltb 16383 n ≡ c
        → (buffer : Bytes) × ReadsBack bytes rest n buffer
    by_length false c p q = (_, one_byte bytes rest n (ground arith))
    by_length true false p q = (_, two_bytes bytes rest n (ground arith) (ground arith))
    by_length true true p q = (_, three_bytes bytes rest n (ground arith) h)

-- A string of at most 2,097,151 bytes is encoded as a string whose length the reader of MySQL's format finds,
-- whatever stands behind the value, with the bytes of the string next.
pub encode_string-read_string_length :
    (v rest : Bytes)
    → length v ≤ 2097151
    → (encoded : Bytes) × (encode_json_value (string v) ≡ done (12, encoded))
      × (read_string_length (encoded ++ rest) ≡ some (length v, v ++ rest))
unfolding encode_json_value encode_string
encode_string-read_string_length v rest h =
    let (buffer, (e, r)) = append_string_length-read_string_length [] (v ++ rest) (length v) h in
    (buffer ++ v, rw e refl, ap read_string_length (append_assoc buffer v rest) ∙ r)
