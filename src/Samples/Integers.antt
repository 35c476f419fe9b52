-- ===== src/Samples/Integers.antt =====
-- Integer cells and the character sets at concrete inputs.
use myduckserver.Base.{drop, [], ◌∷◌, ◌≡◌, refl, arith, done, none}
use myduckserver.Base.Int.{negsuc}
use myduckserver.Charset.{Codecs, encode_bytes, latin1}
use myduckserver.Binlog.Cell.{int, int32}
use myduckserver.Binlog.Cell.Encode.{push}
use myduckserver.Binlog.Numeric.Integers.{mediumint, cell_integer, cell_integer-twos_complement}
use myduckserver.Samples.{builder, signed_column}

cell_integer-twos_complement_example :
    cell_integer mediumint (254 ∷ 255 ∷ 255 ∷ 7 ∷ []) 0 signed_column (builder int32)
    ≡ done (3, push (int (negsuc 1)) (builder int32))
cell_integer-twos_complement_example =
    cell_integer-twos_complement mediumint (negsuc 1) (7 ∷ []) signed_column (builder int32)
      (omega arith) refl refl

-- Codecs that put a mark in front of the text, and take it off again.
abbrev marking : Codecs
marking = record { encoder = λ en s. (1 ∷ s, none); decoder = λ en s. (drop 1 s, none) }

latin1_encoded : (encode_bytes marking latin1 (72 ∷ 105 ∷ [])).1 ≡ none
unfolding encode_bytes
latin1_encoded = refl
