-- ===== src/Charset.antt =====
-- charset/charset.go: which MySQL character sets are supported, and the conversion to and from
-- UTF-8. The encoders and decoders of golang.org/x/text are a parameter (`Codecs`).
pub mod Support
use myduckserver.Base.{ℕ, Bool, true, false, not, ◌&&◌, Option, none, some, List}

-- sql.CharacterSetID: the sets that the file names, and all others
pub data CharacterSet : Type 0 where
  unspecified ascii latin1 utf8mb3 utf8mb4 ucs2 utf16 utf16le utf32 : CharacterSet
  gb2312 gbk gb18030 big5 : CharacterSet
  other : ℕ → CharacterSet

-- the encodings that `getEncoding` picks; `nop` is encoding.Nop
pub data Encoding : Type 0 where
  nop windows_1252 utf16_big_endian utf16_little_endian utf32_big_endian : Encoding
  simplified_gbk simplified_gb18030 traditional_big5 : Encoding

pub data CharsetError : Type 0 where
  unsupported : CharsetError
  codec_error : CharsetError

abbrev pub Bytes : Type 0
Bytes = List ℕ

-- A result beside an optional error, as Go returns them.
abbrev pub Converted : Type 0
Converted = Bytes × Option CharsetError

-- en.NewDecoder().Bytes and en.NewEncoder().Bytes
pub record Codecs : Type 0 where
  pub decoder : Encoding → Bytes → Converted
  pub encoder : Encoding → Bytes → Converted

unfoldable pub is_supported : CharacterSet → Bool
is_supported (other n) = false
is_supported _ = true

unfoldable pub is_utf8 : CharacterSet → Bool
is_utf8 unspecified = true
is_utf8 ascii = true
is_utf8 utf8mb3 = true
is_utf8 utf8mb4 = true
is_utf8 _ = false

unfoldable pub is_supported_non_utf8 : CharacterSet → Bool
unfolding is_supported is_utf8
is_supported_non_utf8 id = is_supported id && not (is_utf8 id)

-- The error case returns encoding.Nop beside the error.
unfoldable pub get_encoding : CharacterSet → Encoding × Option CharsetError
get_encoding unspecified = (nop, none)
get_encoding ascii = (nop, none)
get_encoding utf8mb3 = (nop, none)
get_encoding utf8mb4 = (nop, none)
get_encoding latin1 = (windows_1252, none)
get_encoding ucs2 = (utf16_big_endian, none)
get_encoding utf16 = (utf16_big_endian, none)
get_encoding utf16le = (utf16_little_endian, none)
get_encoding utf32 = (utf32_big_endian, none)
get_encoding gb2312 = (simplified_gbk, none)
get_encoding gbk = (simplified_gbk, none)
get_encoding gb18030 = (simplified_gb18030, none)
get_encoding big5 = (traditional_big5, none)
get_encoding (other n) = (nop, some unsupported)

-- The tail of the four conversions: an error and the input, the input itself at encoding.Nop, or
-- what the codec makes of the input.
convert : (Encoding → Bytes → Converted) → Encoding × Option CharsetError → Bytes → Converted
convert codec (en, some err) input = (input, some err)
convert codec (nop, none) input = (input, none)
convert codec (en, none) input = codec en input

-- Encode and EncodeBytes, Decode and DecodeBytes differ only in string against []byte.
unfoldable pub encode_bytes : Codecs → CharacterSet → Bytes → Converted
unfolding convert get_encoding
encode_bytes x id utf8 = convert x.encoder (get_encoding id) utf8

unfoldable pub decode_bytes : Codecs → CharacterSet → Bytes → Converted
unfolding convert get_encoding
decode_bytes x id encoded = convert x.decoder (get_encoding id) encoded
