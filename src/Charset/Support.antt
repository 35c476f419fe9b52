-- ===== src/Charset/Support.antt =====
-- What the support tests of charset/charset.go promise of the conversions.
use myduckserver.Base.{true, Option, none, some, ◌≡◌, ◌≢◌, refl, arith, ◌↔◌}
use myduckserver.Charset.{
  CharacterSet, CharsetError, Codecs, Bytes, Encoding, other, nop, is_supported_non_utf8,
  get_encoding, convert, encode_bytes, decode_bytes, windows_1252, utf16_big_endian,
  utf16_little_endian, utf32_big_endian, simplified_gbk, simplified_gb18030, traditional_big5,
}

-- `IsSupportedNonUTF8` holds exactly of the sets for which `getEncoding` finds, without an error,
-- an encoding that is not the identity.
pub is_supported_non_utf8-get_encoding :
    (id : CharacterSet)
    → (is_supported_non_utf8 id ≡ true)
      ↔ (((get_encoding id).1 ≡ none) × ((get_encoding id).0 ≢ nop))
unfolding is_supported_non_utf8 get_encoding
is_supported_non_utf8-get_encoding (other n) = (λ e. cc, λ p. absurd (p.1 refl))
is_supported_non_utf8-get_encoding _ = (λ e. grind arith, λ p. grind arith)

-- The decoder of each encoding inverts its encoder, where that returns no error.
abbrev pub Inverse : Codecs → Type 0
Inverse c =
    (en : Encoding) (t : Bytes)
    → (c.encoder en t).1 ≡ none
    → c.decoder en (c.encoder en t).0 ≡ (t, none)

convert-convert :
    (c : Codecs) (en : Encoding × Option CharsetError) (s : Bytes)
    → Inverse c
    → (convert c.encoder en s).1 ≡ none
    → convert c.decoder en (convert c.encoder en s).0 ≡ (s, none)
unfolding convert
convert-convert c (en, some err) s inverse h = cc
convert-convert c (nop, none) s inverse h = refl
convert-convert c (windows_1252, none) s inverse h = inverse windows_1252 s h
convert-convert c (utf16_big_endian, none) s inverse h = inverse utf16_big_endian s h
convert-convert c (utf16_little_endian, none) s inverse h = inverse utf16_little_endian s h
convert-convert c (utf32_big_endian, none) s inverse h = inverse utf32_big_endian s h
convert-convert c (simplified_gbk, none) s inverse h = inverse simplified_gbk s h
convert-convert c (simplified_gb18030, none) s inverse h = inverse simplified_gb18030 s h
convert-convert c (traditional_big5, none) s inverse h = inverse traditional_big5 s h

-- Where the decoder of each encoding inverts its encoder, a text that is encoded without an error is
-- decoded, in the same character set and without an error, to itself.
pub decode_bytes-encode_bytes :
    (c : Codecs) (id : CharacterSet) (s : Bytes)
    → Inverse c
    → (encode_bytes c id s).1 ≡ none
    → decode_bytes c id (encode_bytes c id s).0 ≡ (s, none)
unfolding encode_bytes decode_bytes
decode_bytes-encode_bytes c id s inverse h = convert-convert c (get_encoding id) s inverse h
