-- ===== src/Strings/Scalar.antt =====
-- Perl scalars and C strings, and the converters of libxml2 as a parameter.
use perl_xml_lib_xml.Common.{ℕ, zero, suc, ◌-◌, ◌^◌, Bool, Option, [], ◌∷◌, ◌==◌, if◌then◌else◌}
use perl_xml_lib_xml.Store.{Str}

-- A `SV *`: NULL, the one undef, another undefined value, or a string with its bytes, NUL among them, and the flag that they are UTF-8.
pub data Scalar : Type 0 where
  no_scalar : Scalar
  undef_scalar : Scalar
  unset_scalar : Scalar
  text_scalar : Str → Bool → Scalar

-- What xmlStrdup and xmlStrlen see of bytes in memory: those before the first NUL.
unfoldable pub c_string : Str → Str
c_string [] = []
c_string (c ∷ r) = if c == 0 then [] else c ∷ c_string r

abbrev pub take : ℕ → Str → Str
take zero s = []
take (suc k) [] = []
take (suc k) (c ∷ r) = c ∷ take k r

-- xmlCharEncoding: an `int`, -1 by its bit pattern.
abbrev pub encoding_error : ℕ
encoding_error = 2 ^ 32 - 1

abbrev pub encoding_none : ℕ
encoding_none = 0

abbrev pub encoding_utf8 : ℕ
encoding_utf8 = 1

abbrev pub encoding_utf16le : ℕ
encoding_utf16le = 2

abbrev pub encoding_utf16be : ℕ
encoding_utf16be = 3

-- A `xmlCharEncodingHandlerPtr`, by xmlCharEncInFunc, which gives UTF-8, and xmlCharEncOutFunc, which takes
-- UTF-8; either can fail.
pub record Coder : Type 0 where
  pub to_utf8 : Str → Option Str
  pub from_utf8 : Str → Option Str

-- xmlGetCharEncodingHandler, xmlFindCharEncodingHandler, xmlParseCharEncoding, and
-- xmlStrcmp(a, b) == 0.
pub record Coders : Type 0 where
  pub get_handler : ℕ → Option Coder
  pub find_handler : Str → Option Coder
  pub parse_encoding : Str → ℕ
  pub same_string : Str → Str → Bool
