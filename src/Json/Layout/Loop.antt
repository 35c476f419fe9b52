-- ===== src/Json/Layout/Loop.antt =====
-- What the loop of encodeJsonArray leaves in its buffers.
use native.Mathlib.Nat.{add_assoc}
use mathlib.Core.List.{append_assoc, append-nil}
use myduckserver.Base.{
  ℕ, ◌+◌, ◌/◌, ◌%◌, ◌^◌, ◌<◌, ltb, ◌==◌, Bool, true, false, not, ◌&&◌, List, [], ◌∷◌, ◌++◌, map,
  length, All, done, ◌≡◌, inl, inr, refl, ap, ◌∙◌, arith, length-append,
}
use myduckserver.Charset.{Bytes}
use myduckserver.Binlog.Cell.Encode.{le_bytes}
use myduckserver.Json.{json_type_literal, append_for_encoding, room_before}
use myduckserver.Json.Arrays.{Buffers, put_literal, put_offset, put_value, put_values}
use myduckserver.Json.Layout.{
  width, limit, IsEncoded, value_of, values_of, entry_of, entries_from, value_of-offset,
}

pub append_for_encoding-le_bytes :
    (large : Bool) (bytes : Bytes) (n : ℕ)
    → append_for_encoding bytes n large ≡ bytes ++ le_bytes (width large) n
unfolding append_for_encoding
append_for_encoding-le_bytes true bytes n =
    let e : n / 2 ^ 16 ≡ n / 256 / 256 = omega arith in
    let f : n / 2 ^ 24 ≡ n / 256 / 256 / 256 = omega arith in rw (e, f) refl
append_for_encoding-le_bytes false bytes n = refl

-- The buffers behind a value.
abbrev put : Bool → Buffers → ℕ × Bytes → Buffers
put large b e = record {
  entries = b.entries ++ entry_of large b.next_offset e;
  values = b.values ++ value_of e;
  next_offset = b.next_offset + length (value_of e);
}

put_value-literal :
    (large : Bool) (b : Buffers) (c : ℕ)
    → put_value large b (4, c ∷ []) ≡ done (put large b (4, c ∷ []))
unfolding put_value put_literal
put_value-literal large b c =
    let n : b.next_offset + 0 ≡ b.next_offset = omega arith in
    simp (append_for_encoding-le_bytes, append_assoc, append-nil, n)

pub fits :
    (large : Bool) (n m : ℕ)
    → n + m < limit large
    → (not large && ltb (room_before m) n ≡ false) × ((n + m) % 2 ^ 32 ≡ n + m)
unfolding room_before
fits true n m h = (refl, omega arith)
fits false n m h = (ground arith, omega arith)

put_value-offset :
    (large : Bool) (b : Buffers) (t : ℕ) (v : Bytes)
    → t == json_type_literal ≡ false
    → b.next_offset + length v < limit large
    → put_value large b (t, v) ≡ done (put large b (t, v))
unfolding put_value put_offset
put_value-offset large b t v h p =
    let (guard, wrap) = fits large b.next_offset (length v) p in
    simp (h, guard, wrap, append_for_encoding-le_bytes, append_assoc)

put_value-put :
    (large : Bool) (b : Buffers) (e : ℕ × Bytes)
    → IsEncoded e
    → b.next_offset + length (value_of e) < limit large
    → put_value large b e ≡ done (put large b e)
put_value-put large b (t, v) (_, inl h) p =
    put_value-offset large b t v h (omega (arith, ap length (value_of-offset t v h)))
put_value-put large b (t, v) (_, inr (h, (c, _, e))) p = rw (h, e) (put_value-literal large b c)

unfoldable pub put_all : Bool → Buffers → List (ℕ × Bytes) → Buffers
put_all large b es = record {
  entries = b.entries ++ entries_from large b.next_offset es;
  values = b.values ++ values_of es;
  next_offset = b.next_offset + length (values_of es);
}

pub put_values-put_all :
    (large : Bool) (b : Buffers) (es : List (ℕ × Bytes))
    → All IsEncoded es
    → b.next_offset + length (values_of es) < limit large
    → put_values large b (map done es) ≡ done (put_all large b es)
unfolding put_values put_all
put_values-put_all large b [] h p =
    let n : b.next_offset + 0 ≡ b.next_offset = omega arith in simp (append-nil, n)
put_values-put_all large b (e ∷ es) (h, k) p =
    let l = length-append (value_of e) (values_of es) in
    rw (put_value-put large b e h (omega (arith, l))) (
      put_values-put_all large (put large b e) es k (omega (arith, l))
      ∙ simp (append_assoc, l, add_assoc))
