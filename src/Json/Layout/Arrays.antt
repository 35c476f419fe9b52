-- ===== src/Json/Layout/Arrays.antt =====
-- The layout of an encoded array.
use mathlib.Core.Path.{subst}
use mathlib.Core.List.{append_assoc, append-nil}
use myduckserver.Base.{
  ℕ, suc, ◌+◌, ◌*◌, ◌%◌, ◌^◌, ◌≤◌, ◌<◌, ltb, Bool, true, false, not, ◌&&◌, List, [], ◌∷◌, ◌++◌, map,
  length, All, done, ◌≡◌, refl, sym, ap, ap₂, ◌∙◌, arith, length-append,
}
use myduckserver.Charset.{Bytes}
use myduckserver.Binlog.Cell.{le_at}
use myduckserver.Binlog.Cell.Encode.{le_bytes}
use myduckserver.Json.{Encoded, max_offset_size, initial_array_values_offset}
use myduckserver.Json.Arrays.{Buffers, array_type, finish_array, encode_json_array}
use myduckserver.Json.Layout.{width, limit, IsEncoded, value_of, values_of, ArePlaced, entries_from}
use myduckserver.Json.Layout.Loop.{put_all, put_values-put_all, append_for_encoding-le_bytes}
use myduckserver.Json.Layout.Places.{Holds-ArePlaced, length-numbers, header_read}

-- The bytes of an array: two numbers, the entries and the values.
abbrev pub array_length : Bool → List (ℕ × Bytes) → ℕ
array_length large es = 2 * width large + (1 + width large) * length es + length (values_of es)

pub length-entries_from :
    (large : Bool) (n : ℕ) (es : List (ℕ × Bytes))
    → length (entries_from large n es) ≡ (1 + width large) * length es
length-entries_from large n [] = omega arith
length-entries_from true n (e ∷ es) =
    omega (arith, length-entries_from true (n + length (value_of e)) es)
length-entries_from false n (e ∷ es) =
    omega (arith, length-entries_from false (n + length (value_of e)) es)

length-map : (es : List (ℕ × Bytes)) → length {A = Encoded} (map done es) ≡ length es
length-map [] = refl
length-map (e ∷ es) = ap suc (length-map es)

count_le : (large : Bool) (es : List (ℕ × Bytes)) → length es ≤ array_length large es
count_le true es = omega arith
count_le false es = omega arith

no_overflow :
    (large : Bool) (n : ℕ)
    → 2 * width large + (1 + width large) * n < limit large
    → (not large && ltb max_offset_size n ≡ false)
      × (n % 2 ^ 32 ≡ n)
      × (initial_array_values_offset n large ≡ 2 * width large + (1 + width large) * n)
unfolding initial_array_values_offset
no_overflow true n h = (refl, omega arith, omega arith)
no_overflow false n h = (ground arith, omega arith, omega arith)

module _ (large : Bool) (es : List (ℕ × Bytes)) (h : All IsEncoded es)
    (p : array_length large es < limit large) where
  abbrev offset : ℕ
  offset = 2 * width large + (1 + width large) * length es

  abbrev header : Bytes
  header = le_bytes (width large) (length es) ++ le_bytes (width large) (array_length large es)

  abbrev encoded : Bytes
  encoded = header ++ entries_from large offset es ++ values_of es

  encode_json_array-encoded :
      encode_json_array (map done es) large ≡ done (array_type large, encoded)
  unfolding encode_json_array put_all initial_array_values_offset finish_array
  encode_json_array-encoded =
      let (guard, wrap, start) = no_overflow large (length es) (omega arith) in
      let b : Buffers = record { entries = []; values = []; next_offset = offset } in
      rw (length-map es, guard, start, put_values-put_all large b es h p, wrap)
        (simp (append_for_encoding-le_bytes, append_assoc))

  length-header : length header ≡ 2 * width large
  length-header = length-numbers large (length es) (array_length large es)

  length-before : length (header ++ entries_from large offset es) ≡ offset
  length-before =
      length-append header (entries_from large offset es)
      ∙ ap₂ (λ a b. a + b) length-header (length-entries_from large offset es)

  length-encoded : length encoded ≡ array_length large es
  length-encoded =
      length-append (header ++ entries_from large offset es) (values_of es)
      ∙ ap (λ n. n + length (values_of es)) length-before

  encoded-ArePlaced : ArePlaced large encoded (2 * width large) es
  encoded-ArePlaced =
      subst (λ i. ArePlaced large encoded i es) length-header
        (Holds-ArePlaced large encoded header (header ++ entries_from large offset es) es h
          (omega (arith, length-before))
          (record {
            after_entries = values_of es;
            after_values = [];
            entries_held =
                append_assoc header (entries_from large offset es) (values_of es)
                ∙ ap (λ n. header ++ (entries_from large n es ++ values_of es)) (sym length-before);
            values_held =
                ap (λ v. header ++ entries_from large offset es ++ v)
                  (sym (append-nil (values_of es)));
          }))

  encoded-header :
      (le_at encoded 0 (width large) ≡ done (length es))
      × (le_at encoded (width large) (width large) ≡ done (length encoded))
  encoded-header =
      let (count, size) =
        header_read large (length es) (array_length large es) encoded
          (entries_from large offset es ++ values_of es) (omega (arith, count_le large es)) p
          (simp append_assoc) in
      (count, size ∙ ap done (sym length-encoded))

-- Where the elements of an array are encoded, and the header, the entries and the values together are below the
-- limit of the encoding (2 ^ 16 for the small one, 2 ^ 32 for the large one), the array is encoded in as many
-- bytes as that, and MySQL's readers find all of it: the number of elements, the size, and for each element
-- its type with either the literal or the offset at which the bytes of its value stand.
pub encode_json_array-ArePlaced :
    (large : Bool) (es : List (ℕ × Bytes))
    → All IsEncoded es
    → array_length large es < limit large
    → (d : Bytes) × (encode_json_array (map done es) large ≡ done (array_type large, d))
      × (length d ≡ array_length large es)
      × (le_at d 0 (width large) ≡ done (length es))
      × (le_at d (width large) (width large) ≡ done (length d))
      × ArePlaced large d (2 * width large) es
encode_json_array-ArePlaced large es h p = (
  encoded large es h p,
  encode_json_array-encoded large es h p,
  length-encoded large es h p,
  (encoded-header large es h p).0,
  (encoded-header large es h p).1,
  encoded-ArePlaced large es h p,
)
