-- ===== src/Binlog/Text/Contents.antt =====
-- The contents of VARBINARY, BINARY and BLOB cells as CellValue (binlog/rbr.go) appends them.
use mathlib.Core.List.{append-nil}
use myduckserver.Base.{
  ℕ, zero, suc, ◌+◌, ◌-◌, ◌/◌, ◌%◌, ◌^◌, ◌≤◌, ◌<◌, ◌≡◌, refl, ap, ◌∙◌, Bool-cases, inl, inr, ◌≢◌,
  if◌then◌else◌, arith, true, ltb, [], ◌∷◌, ◌++◌, length, length-append, length-replicate,
  replicate, done,
}
use myduckserver.Charset.{Bytes}
use myduckserver.Binlog.Cell.{
  CellError, unsupported_blob, unsupported_geometry, binary_value, binary, Builder, Column,
  query_varbinary, query_binary, query_json, Externals, append_as, byte_at, slice,
}
use myduckserver.Binlog.Cell.Reads.{slice-append, slice_front}
use myduckserver.Binlog.Cell.Encode.{le_bytes, push, le_at-le_bytes}
use myduckserver.Binlog.Text.{cell_varchar, cell_char, prefixed_bytes}
use myduckserver.Binlog.Blob.{cell_blob, cell_geometry, blob_prefix}

-- The bytes of the length of a column of at most `max` bytes.
abbrev pub length_size : ℕ → ℕ
length_size max = if ltb 255 max then 2 else 1

-- The contents behind the bytes `front`.
slice_behind :
    (front c rest : Bytes) → slice (front ++ (c ++ rest)) (length front + 0) (length c) ≡ done c
slice_behind front c rest =
    slice-append front (c ++ rest) 0 (length c) ∙ slice_front c rest (length c) refl

-- The contents behind their length in one byte, and in two.
prefixed_bytes-short :
    (c rest : Bytes) (max : ℕ)
    → max ≤ 255
    → length c ≤ max
    → prefixed_bytes ((length c) ∷ (c ++ rest)) 0 max ≡ done (length c + 1, c)
unfolding prefixed_bytes byte_at
prefixed_bytes-short c rest max h k = ground (arith, slice_behind (length c ∷ []) c rest)

prefixed_bytes-long :
    (c rest : Bytes) (max : ℕ)
    → 255 < max
    → length c < 65536
    → prefixed_bytes (le_bytes 2 (length c) ++ (c ++ rest)) 0 max ≡ done (length c + 2, c)
unfolding prefixed_bytes
prefixed_bytes-long c rest max h k =
    ground
      (arith, le_at-le_bytes 2 (length c) (c ++ rest), slice_behind (le_bytes 2 (length c)) c rest)

pad_none : (c : Bytes) (max : ℕ) → max ≤ length c → c ++ replicate (max - length c) 0 ≡ c
pad_none c max h = let e : max - length c ≡ 0 = omega arith in rw e (append-nil c)

-- A BINARY(max) value, which MySQL stores without its trailing zero bytes, is padded to its full length.
pub cell_char-padded :
    (x : Externals) (c rest : Bytes) (max : ℕ) (col : Column) (b : Builder)
    → max ≤ 255
    → length c ≤ max
    → col.is_binary ≡ true
    → col.query_type ≡ query_binary
    → b.kind ≡ binary
    → (cell_char x ((length c) ∷ (c ++ rest)) 0 max col b
        ≡ done (length c + 1, push (binary_value (c ++ replicate (max - length c) 0)) b))
      × (length (c ++ replicate (max - length c) 0) ≡ max)
unfolding cell_char append_as
cell_char-padded x c rest max col b h k ib q kb = (
  rw (prefixed_bytes-short c rest max h k) (ground (arith, pad_none c max)),
  omega (
    arith,
    length-append c (replicate (max - length c) 0),
    length-replicate {A = ℕ} (max - length c) 0,
  ),
)

-- A VARBINARY value is appended whole, whether its length takes one byte or, where the column is
-- longer than 255, two.
pub cell_varchar-contents :
    (x : Externals) (c rest : Bytes) (max : ℕ) (col : Column) (b : Builder)
    → max < 65536
    → length c ≤ max
    → col.query_type ≡ query_varbinary
    → b.kind ≡ binary
    → cell_varchar x (le_bytes (length_size max) (length c) ++ (c ++ rest)) 0 max col b
      ≡ done (length c + length_size max, push (binary_value c) b)
unfolding cell_varchar append_as
cell_varchar-contents x c rest max col b h k q kb = elim (Bool-cases (ltb 255 max)) [
  | inl e ↦ rw (e, prefixed_bytes-long c rest max (ground arith) (omega arith)) (ground arith)
  | inr e ↦
      let m : length c % 256 ≡ length c = ground arith in
      rw (e, m, prefixed_bytes-short c rest max (ground arith) k) (ground arith)
]

length-le_bytes : (n v : ℕ) → length (le_bytes n v) ≡ n
length-le_bytes zero v = refl
length-le_bytes (suc n) v = ap suc (length-le_bytes n (v / 256))

blob_prefix-le_bytes :
    (e : CellError) (k v : ℕ) (rest : Bytes)
    → 0 < k
    → k ≤ 4
    → v < 256 ^ k
    → blob_prefix e (le_bytes k v ++ rest) 0 k ≡ done v
unfolding blob_prefix byte_at
blob_prefix-le_bytes e zero v rest p h lt = absurd (omega arith)
blob_prefix-le_bytes e (suc zero) v rest p h lt = ground arith
blob_prefix-le_bytes e (suc (suc zero)) v rest p h lt = le_at-le_bytes 2 v rest lt
blob_prefix-le_bytes e (suc (suc (suc zero))) v rest p h lt = le_at-le_bytes 3 v rest lt
blob_prefix-le_bytes e (suc (suc (suc (suc zero)))) v rest p h lt = le_at-le_bytes 4 v rest lt
blob_prefix-le_bytes e (suc (suc (suc (suc (suc k))))) v rest p h lt = absurd (omega arith)

-- A blob of less than 256 ^ k bytes, with its length in k bytes, is appended whole, and so is a
-- geometry.
pub cell_blob-contents :
    (x : Externals) (k : ℕ) (c rest : Bytes) (col : Column) (b : Builder)
    → 0 < k
    → k ≤ 4
    → length c < 256 ^ k
    → col.query_type ≢ query_json
    → b.kind ≡ binary
    → (cell_blob x (le_bytes k (length c) ++ (c ++ rest)) 0 k col b
        ≡ done (length c + k, push (binary_value c) b))
      × (cell_geometry (le_bytes k (length c) ++ (c ++ rest)) 0 k b
          ≡ done (length c + k, push (binary_value c) b))
unfolding cell_blob cell_geometry append_as
cell_blob-contents x k c rest col b p h lt q kb =
    let front = le_bytes k (length c) in
    let at : 0 + k ≡ length front + 0 = omega (arith, length-le_bytes k (length c)) in
    (
      rw
          (
            blob_prefix-le_bytes unsupported_blob k (length c) (c ++ rest) p h lt,
            at,
            slice_behind front c rest,
          )
          (ground arith),
      rw
          (
            blob_prefix-le_bytes unsupported_geometry k (length c) (c ++ rest) p h lt,
            at,
            slice_behind front c rest,
          )
          (ground arith),
    )
