-- ===== src/Json/Layout/Keys.antt =====
-- The keys of an object: what the loop over them leaves in its buffers, and where the readers find it.
use native.Mathlib.Nat.{add_assoc}
use mathlib.Core.Path.{subst}
use mathlib.Core.List.{append_assoc, append-nil}
use myduckserver.Base.{
  ℕ, ◌+◌, ◌*◌, ◌/◌, ◌%◌, ◌^◌, ◌<◌, ltb, if◌then◌else◌, failed, Bool, true, false, not, ◌&&◌,
  if◌then◌else◌, List, [], ◌∷◌, ◌++◌, length, All, done, ◌≡◌, refl, ap, ap₂, ◌∙◌, arith,
  length-append,
}
use myduckserver.Charset.{Bytes}
use myduckserver.Binlog.Cell.{byte_at, le_at, slice}
use myduckserver.Binlog.Cell.Reads.{le_at-append}
use myduckserver.Binlog.Cell.Encode.{le_bytes, le_at-le_bytes}
use myduckserver.Json.{offset_too_large, append_for_encoding, room_before}
use myduckserver.Json.Arrays.{Buffers}
use myduckserver.Json.Objects.{put_key, put_keys}
use myduckserver.Json.Layout.{
  width, limit, IsKeyPlaced, AreKeysPlaced, key_entry, keys_from, keys_of,
}
use myduckserver.Json.Layout.Loop.{fits, append_for_encoding-le_bytes}
use myduckserver.Json.Layout.Places.{slice_behind, length-le_bytes}

abbrev pub IsShort : Bytes → Type 0
IsShort key = length key < 256

put_key_lem :
    (large : Bool) (b : Buffers) (key : Bytes)
    → IsShort key
    → b.next_offset + length key < limit large
    → put_key large b key
      ≡ done (record {
        entries = b.entries ++ key_entry large b.next_offset key;
        values = b.values ++ key;
        next_offset = b.next_offset + length key;
      })
unfolding put_key
put_key_lem large b key h p =
    let (guard, wrap) = fits large b.next_offset (length key) p in
    let high : length key * 2 ^ 8 % 256 ≡ length key / 256 % 256 = omega arith in
    simp (guard, wrap, high, append_for_encoding-le_bytes, append_assoc)

unfoldable pub put_all_keys : Bool → Buffers → List Bytes → Buffers
put_all_keys large b keys = record {
  entries = b.entries ++ keys_from large b.next_offset keys;
  values = b.values ++ keys_of keys;
  next_offset = b.next_offset + length (keys_of keys);
}

pub put_keys-put_all_keys :
    (large : Bool) (b : Buffers) (keys : List Bytes)
    → All IsShort keys
    → b.next_offset + length (keys_of keys) < limit large
    → put_keys large b keys ≡ done (put_all_keys large b keys)
unfolding put_keys put_all_keys
put_keys-put_all_keys large b [] h p =
    let n : b.next_offset + 0 ≡ b.next_offset = omega arith in simp (append-nil, n)
put_keys-put_all_keys large b (key ∷ keys) (h, k) p =
    let l = length-append key (keys_of keys) in
    let b' : Buffers = record {
      entries = b.entries ++ key_entry large b.next_offset key;
      values = b.values ++ key;
      next_offset = b.next_offset + length key;
    } in
    rw (put_key_lem large b key h (omega (arith, l)))
      (put_keys-put_all_keys large b' keys k (omega (arith, l)) ∙ simp (append_assoc, l, add_assoc))

length-key_entry :
    (large : Bool) (n : ℕ) (key : Bytes) → length (key_entry large n key) ≡ width large + 2
length-key_entry large n key = omega (
  arith,
  length-append (le_bytes (width large) n) (le_bytes 2 (length key)),
  length-le_bytes (width large) n,
)

pub length-keys_from :
    (large : Bool) (n : ℕ) (keys : List Bytes)
    → length (keys_from large n keys) ≡ (width large + 2) * length keys
length-keys_from large n [] = omega arith
length-keys_from true n (key ∷ keys) = omega (arith, length-keys_from true (n + length key) keys)
length-keys_from false n (key ∷ keys) = omega (arith, length-keys_from false (n + length key) keys)

IsKeyPlaced-first :
    (large : Bool) (d front before key r s : Bytes)
    → IsShort key
    → length before < limit large
    → d ≡ front ++ (key_entry large (length before) key ++ r)
    → d ≡ before ++ (key ++ s)
    → IsKeyPlaced large d (length front) key
IsKeyPlaced-first large d front before key r s h p e f =
    let w = width large in
    let n = le_bytes w (length before) in
    let l = le_bytes 2 (length key) in
    let at_front : length front ≡ length front + 0 = omega arith in
    let at_length : length front + w ≡ length front + (length n + 0) =
      omega (arith, length-le_bytes w (length before)) in
    let g : d ≡ front ++ (n ++ (l ++ r)) = e ∙ ap (λ x. front ++ x) (append_assoc n l r) in
    (
      length before,
      ap₂ (λ d i. le_at d i w) g at_front
          ∙ le_at-append front (n ++ (l ++ r)) 0 w
          ∙ le_at-le_bytes w (length before) (l ++ r) p,
      ap₂ (λ d i. le_at d i 2) g at_length
          ∙ le_at-append front (n ++ (l ++ r)) (length n + 0) 2
          ∙ le_at-append n (l ++ r) 0 2
          ∙ le_at-le_bytes 2 (length key) r (omega arith),
      ap (λ d. slice d (length before) (length key)) f ∙ slice_behind before s key,
    )

pub AreKeysPlaced-keys_from :
    (large : Bool) (d front before r s : Bytes) (keys : List Bytes)
    → All IsShort keys
    → length before + length (keys_of keys) < limit large
    → d ≡ front ++ (keys_from large (length before) keys ++ r)
    → d ≡ before ++ (keys_of keys ++ s)
    → AreKeysPlaced large d (length front) keys
AreKeysPlaced-keys_from large d front before r s [] h p e f = tt
AreKeysPlaced-keys_from large d front before r s (key ∷ keys) (h, hs) p e f =
    let n = length before in
    let more = keys_from large (n + length key) keys in
    let entry = key_entry large n key in
    let l = length-append before key in
    let g : d ≡ front ++ (entry ++ (more ++ r)) = e ∙ simp append_assoc in
    let k : d ≡ before ++ (key ++ (keys_of keys ++ s)) = f ∙ simp append_assoc in
    let here : length (front ++ entry) ≡ length front + width large + 2 =
      omega (arith, length-append front entry, length-key_entry large n key) in
    (
      IsKeyPlaced-first large d front before key (more ++ r) (keys_of keys ++ s) h (omega arith) g
          k,
      subst (λ i. AreKeysPlaced large d i keys) here
          (AreKeysPlaced-keys_from large d (front ++ entry) (before ++ key) r s keys hs
            (omega (arith, l, length-append key (keys_of keys))) (g ∙ simp (append_assoc, l))
            (k ∙ simp append_assoc)),
    )

two_bytes : (k : ℕ) → le_at (k % 256 ∷ k * 2 ^ 8 % 256 ∷ []) 0 2 ≡ done (k % 256)
unfolding le_at byte_at
two_bytes k =
    let high : k * 2 ^ 8 % 256 ≡ 0 = omega arith in
    let sum : k % 256 + 256 * (0 + 256 * 0) ≡ k % 256 = omega arith in rw (high, sum) refl

entry_low_byte :
    (large : Bool) (bytes : Bytes) (n k : ℕ)
    → le_at
        (append_for_encoding bytes n large ++ (k % 256 ∷ k * 2 ^ 8 % 256 ∷ []))
        (length bytes + width large)
        2
      ≡ done (k % 256)
entry_low_byte large bytes n k =
    let front = bytes ++ le_bytes (width large) n in
    let last = k % 256 ∷ k * 2 ^ 8 % 256 ∷ [] in
    let i : length bytes + width large ≡ length front + 0 =
      omega
        (arith, length-append bytes (le_bytes (width large) n), length-le_bytes (width large) n) in
    ap₂ (λ d i. le_at (d ++ last) i 2) (append_for_encoding-le_bytes large bytes n) i
    ∙ le_at-append front last 0 2
    ∙ two_bytes k

put_result :
    (g : Bool) (b b' : Buffers) → (if g then failed offset_too_large else done b) ≡ done b' → b ≡ b'
put_result true b b' h = cc
put_result false b b' h = cc

-- The entry of a key, behind any others, gives the low byte of its length for its length, in either encoding: a
-- key of 256 bytes or more has a length in its entry that is not its own.
pub put_key-low_byte :
    (large : Bool) (b b' : Buffers) (key : Bytes)
    → put_key large b key ≡ done b'
    → le_at b'.entries (length b.entries + width large) 2 ≡ done (length key % 256)
unfolding put_key
put_key-low_byte large b b' key h =
    subst
      (λ (b' : Buffers).
        le_at b'.entries (length b.entries + width large) 2 ≡ done (length key % 256))
      (put_result (not large && ltb (room_before (length key)) b.next_offset) _ b' h)
      (entry_low_byte large b.entries b.next_offset (length key))
