-- ===== src/Strings/NoNul.antt =====
-- C strings, whose bytes are not NUL, and the lengths handed with them (PmmFastEncodeString).
use perl_xml_lib_xml.Common.{
  ◌<◌, ◌≡◌, refl, false, [], ◌∷◌, arith, ◌==◌, if◌then◌else◌, length, All,
}
use perl_xml_lib_xml.Store.{Str}
use perl_xml_lib_xml.Strings.Scalar.{c_string}

-- The bytes of a C string: none of them is NUL.
abbrev pub NoNul : Str → Type 0
NoNul s = All (λ c. 0 < c) s

pub c_string-NoNul : (s : Str) → NoNul s → c_string s ≡ s
unfolding c_string
c_string-NoNul [] all = refl
c_string-NoNul (c ∷ r) (pos, all) =
    let nz : (c == 0) ≡ false = ground arith in rw (nz, c_string-NoNul r all) refl

-- The length zero stands for the length of the string.
pub given_length : (s : Str) → (if length s == 0 then length (c_string s) else length s) ≡ length s
unfolding c_string
given_length [] = refl
given_length (c ∷ r) = ground arith
