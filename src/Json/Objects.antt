-- ===== src/Json/Objects.antt =====
-- encodeJsonObject of binlogreplication/binlog_json_serialization.go, on values that encodeJsonValue has encoded.
use myduckserver.Base.{
  ℕ, ◌+◌, ◌*◌, ◌%◌, ◌^◌, ltb, Bool, true, false, not, ◌&&◌, if◌then◌else◌, List, [], ◌∷◌, ◌++◌, map,
  length, Outcome, done, failed, ◌>>=◌,
}
use myduckserver.Charset.{Bytes}
use myduckserver.Json.{
  Encoded, JsonError, offset_too_large, room_before, append_for_encoding,
  initial_object_keys_offset,
}
use myduckserver.Json.Arrays.{Buffers, put_values}

-- Strings of Go compare byte by byte.
unfoldable pub key_leb : Bytes → Bytes → Bool
key_leb [] l = true
key_leb (a ∷ k) [] = false
key_leb (a ∷ k) (b ∷ l) =
    let rest = key_leb k l in if ltb a b then true else if ltb b a then false else rest

-- sort.Strings on the keys, each with its value
unfoldable pub insert_key {ℓ} : {A : Type ℓ} → Bytes × A → List (Bytes × A) → List (Bytes × A)
insert_key f [] = f ∷ []
insert_key f (g ∷ fs) =
    let rest = insert_key f fs in if key_leb f.0 g.0 then f ∷ g ∷ fs else g ∷ rest

unfoldable pub sort_keys {ℓ} : {A : Type ℓ} → List (Bytes × A) → List (Bytes × A)
sort_keys [] = []
sort_keys (f ∷ fs) = insert_key f (sort_keys fs)

-- The low byte of the length, and byte(length << 8), which is 0.
unfoldable pub put_key : Bool → Buffers → Bytes → Outcome JsonError Buffers
put_key large b key =
    if not large && ltb (room_before (length key)) b.next_offset
    then failed offset_too_large
    else done (record {
      entries =
          append_for_encoding b.entries b.next_offset large
          ++ (length key % 256 ∷ length key * 2 ^ 8 % 256 ∷ []);
      values = b.values ++ key;
      next_offset = (b.next_offset + length key) % 2 ^ 32;
    })

unfoldable pub put_keys : Bool → Buffers → List Bytes → Outcome JsonError Buffers
put_keys large b [] = done b
put_keys large b (k ∷ ks) = do b' ← put_key large b k; put_keys large b' ks

abbrev pub object_type : Bool → ℕ
object_type large = if large then 1 else 0

unfoldable pub finish_object : Bool → ℕ → Buffers → Buffers → Bytes
finish_object large n keys b =
    append_for_encoding (append_for_encoding [] (n % 2 ^ 32) large) b.next_offset large
    ++ keys.entries
    ++ b.entries
    ++ keys.values
    ++ b.values

-- The loops over the sorted fields: first the keys, then the values behind them.
unfoldable pub encode_sorted : List (Bytes × Encoded) → Bool → Encoded
encode_sorted fs large = do
  keys ←
      put_keys large
        (record {
          entries = [];
          values = [];
          next_offset = initial_object_keys_offset (length fs) large;
        })
        (map (λ f. f.0) fs)
  b ←
      put_values large (record { entries = []; values = []; next_offset = keys.next_offset })
        (map (λ f. f.1) fs)
  done (object_type large, finish_object large (length fs) keys b)

unfoldable pub encode_json_object : List (Bytes × Encoded) → Bool → Encoded
encode_json_object fs large = encode_sorted (sort_keys fs) large
