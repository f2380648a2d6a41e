-- ===== src/Strings/OverRead.antt =====
-- Which memory a conversion of a Perl string reads (Sv2C).
use perl_xml_lib_xml.Common.{
  ℕ, zero, suc, ◌+◌, ◌<◌, ◌≡◌, refl, true, false, some, [], ◌∷◌, ◌++◌, arith, ◌==◌, ltb, length,
}
use perl_xml_lib_xml.Store.{Str, Store}
use perl_xml_lib_xml.Store.Outcome.{done, fault}
use perl_xml_lib_xml.Strings.Scalar.{
  text_scalar, c_string, take, Coder, Coders, encoding_error, encoding_none, encoding_utf8,
  encoding_utf16le, encoding_utf16be,
}
use perl_xml_lib_xml.Strings.Convert.{
  is_ascii, known_charset, choose_coder, converted, run_coder, pmm_fast_encode_string,
  pmm_encode_string, encode_copy, sv2c,
}
use perl_xml_lib_xml.Strings.NoNul.{NoNul, c_string-NoNul}

-- A charset that libxml2 converts with the handler `coder`, without a look at a byte order mark.
pub record IsPlainCharset (lib : Coders) (charset : ℕ) (coder : Coder) : Type 0 where
  pub not_error : (charset == encoding_error) ≡ false
  pub not_none : (charset == encoding_none) ≡ false
  pub not_utf8 : (charset == encoding_utf8) ≡ false
  pub not_utf16le : (charset == encoding_utf16le) ≡ false
  pub not_utf16be : (charset == encoding_utf16be) ≡ false
  pub handler : lib.get_handler charset ≡ some coder

pub pmm_fast_encode_string-plain :
    (lib : Coders) (charset : ℕ) (coder : Coder) (s encoding : Str) (len : ℕ) (h : Store)
    → IsPlainCharset lib charset coder
    → 0 < len
    → is_ascii len s ≡ false
    → pmm_fast_encode_string lib charset s encoding len h ≡ run_coder (some coder) s len h
unfolding pmm_fast_encode_string known_charset choose_coder
pmm_fast_encode_string-plain lib charset coder s encoding len h is pos not_ascii =
    let nz : (len == 0) ≡ false = ground arith in
    rw
      (
        nz, is.not_error, not_ascii, is.not_utf8, is.not_utf16le, is.not_utf16be, is.not_error,
        is.not_none, is.handler,
      )
      refl

c_string-append : (s r : Str) → NoNul s → c_string (s ++ 0 ∷ r) ≡ s
unfolding c_string
c_string-append [] r all = refl
c_string-append (c ∷ s) r (pos, all) =
    let nz : (c == 0) ≡ false = ground arith in rw (nz, c_string-append s r all) refl

-- A string is not ASCII as far as its closing NUL.
is_ascii-long : (n : ℕ) (s : Str) → length s < n → is_ascii n s ≡ false
unfolding is_ascii
is_ascii-long zero s long = elim long [ ]
is_ascii-long (suc n) [] long = refl
is_ascii-long (suc n) (c ∷ r) long = rw (is_ascii-long n r (omega arith)) (ground arith)

length-append : (s r : Str) → length (s ++ r) ≡ length s + length r
length-append [] r = omega arith
length-append (c ∷ s) r = omega (arith, length-append s r)

pub take-length : (s r : Str) → take (length s) (s ++ r) ≡ s
take-length [] r = refl
take-length (c ∷ s) r = rw (take-length s r) refl

pub run_coder-whole :
    (coder : Coder) (s : Str) (h : Store)
    → run_coder (some coder) s (length s) h ≡ done (converted (coder.to_utf8 s)) h
unfolding run_coder
run_coder-whole coder s h =
    let inside : ltb (length s + 1) (length s) ≡ false = ground arith in
    rw (inside, take-length s (0 ∷ [])) refl

some_length : (a : ℕ) (s : Str) → ltb 0 (length (a ∷ s)) ≡ true
some_length a s = ground arith

-- Let a Perl string that is not UTF-8 have a NUL in it, with at least one byte before and one byte after
-- it, and let its encoding have a converter. Then Sv2C reads behind the end of the memory that it
-- allocated: it copies the string as far as the NUL and converts the length of the whole string.
pub sv2c-over_read :
    (lib : Coders) (coder : Coder) (a b : ℕ) (s r encoding : Str) (h : Store)
    → IsPlainCharset lib (lib.parse_encoding encoding) coder
    → NoNul (a ∷ s)
    → sv2c lib (text_scalar ((a ∷ s) ++ 0 ∷ b ∷ r) false) (some encoding) h ≡ fault
unfolding sv2c encode_copy pmm_encode_string run_coder
sv2c-over_read lib coder a b s r encoding h is all =
    let bytes = (a ∷ s) ++ 0 ∷ b ∷ r in
    let long : length (a ∷ s) + 1 < length bytes = omega (arith, length-append s (0 ∷ b ∷ r)) in
    let outside : ltb (length (a ∷ s) + 1) (length bytes) ≡ true = ground arith in
    rw
      (
        c_string-append (a ∷ s) (b ∷ r) all,
        some_length a s,
        pmm_fast_encode_string-plain lib (lib.parse_encoding encoding) coder (a ∷ s) encoding
            (length bytes) h is (omega arith) (is_ascii-long (length bytes) (a ∷ s) (omega arith)),
        outside,
      )
      refl

-- A Perl string that is not UTF-8, has a byte that is not ASCII and no NUL, is what the converter of its
-- encoding makes of exactly its bytes, as far as the first NUL of that, and NULL if the converter fails.
pub sv2c-converts :
    (lib : Coders) (coder : Coder) (s encoding : Str) (h : Store)
    → IsPlainCharset lib (lib.parse_encoding encoding) coder
    → NoNul s
    → is_ascii (length s) s ≡ false
    → sv2c lib (text_scalar s false) (some encoding) h ≡ done (converted (coder.to_utf8 s)) h
unfolding sv2c encode_copy pmm_encode_string is_ascii
sv2c-converts lib coder [] encoding h is all not_ascii = cc
sv2c-converts lib coder (a ∷ s) encoding h is all not_ascii =
    rw
      (
        c_string-NoNul (a ∷ s) all,
        some_length a s,
        pmm_fast_encode_string-plain lib (lib.parse_encoding encoding) coder (a ∷ s) encoding
            (length (a ∷ s)) h is (omega arith) not_ascii,
        run_coder-whole coder (a ∷ s) h,
      )
      refl
