-- ===== src/Strings/Convert.antt =====
-- Converting a string with a given encoding (PmmFastEncodeString, PmmFastDecodeString, PmmEncodeString,
-- C2Sv, Sv2C). A string in memory is its bytes; behind them comes one NUL, and reading further is a fault.
-- Perl is one that has UTF-8 strings (HAVE_UTF8).
use perl_xml_lib_xml.Common.{
  ℕ, zero, suc, ◌+◌, ◌-◌, Bool, true, false, ◌||◌, ◌&&◌, not, Option, none, some, [], ◌∷◌, ◌++◌,
  ◌==◌, ltb, leb, if◌then◌else◌, length,
}
use perl_xml_lib_xml.Store.{Str, no_encoding_found}
use perl_xml_lib_xml.Store.Outcome.{Cmd, pure, done, fault, when, ◌>>◌}
use perl_xml_lib_xml.Strings.Scalar.{
  Scalar, no_scalar, undef_scalar, unset_scalar, text_scalar, c_string, take, Coder, Coders,
  encoding_error, encoding_none, encoding_utf8, encoding_utf16le, encoding_utf16be,
}

-- "UTF-16LE" and "UTF-16BE"
abbrev pub utf16le_name : Str
utf16le_name = b'U' ∷ b'T' ∷ b'F' ∷ b'-' ∷ b'1' ∷ b'6' ∷ b'L' ∷ b'E' ∷ []

abbrev pub utf16be_name : Str
utf16be_name = b'U' ∷ b'T' ∷ b'F' ∷ b'-' ∷ b'1' ∷ b'6' ∷ b'B' ∷ b'E' ∷ []

-- The first loop of PmmFastEncodeString: whether the first `n` bytes are ASCII and none is NUL.
unfoldable pub is_ascii : ℕ → Str → Bool
is_ascii zero s = true
is_ascii (suc k) [] = false
is_ascii (suc k) (c ∷ r) = if (c == 0) || leb 128 c then false else is_ascii k r

unfoldable pub converted : Option Str → Option Str
converted none = none
converted (some out) = some (c_string out)

-- The converter is handed `n` bytes of memory.
unfoldable pub run_coder : Option Coder → Str → ℕ → Cmd (Option Str)
run_coder none string n = pure none
run_coder (some coder) string n =
    if ltb (length string + 1) n
    then (λ h. fault)
    else pure (converted (coder.to_utf8 (take n (string ++ 0 ∷ []))))

-- `warn("PmmFastDecodeString: no encoding found\n")`
unfoldable pub report_no_encoding : Cmd (Unit {0})
report_no_encoding h = done tt (record h { reports = no_encoding_found ∷ h.reports })

unfoldable pub run_decoder : Option Coder → Str → Option Str
run_decoder none string = none
run_decoder (some coder) string = coder.from_utf8 (c_string string)

module _ (lib : Coders) where
  -- An unknown encoding whose name is one of the UTF-16 names.
  unfoldable pub known_charset : ℕ → Str → ℕ
  known_charset charset encoding =
      if not (charset == encoding_error)
      then charset
      else if lib.same_string encoding utf16le_name
      then encoding_utf16le
      else if lib.same_string encoding utf16be_name
      then encoding_utf16be
      else charset

  -- The byte order mark, if there is one, decides; it is skipped.
  unfoldable pub after_bom : ℕ → ℕ → Str → Option Coder × (Str × ℕ)
  after_bom charset n (a ∷ b ∷ r) =
      if leb 2 n && ((a == 0xfe) && (b == 0xff))
      then (lib.get_handler encoding_utf16be, (r, n - 2))
      else if leb 2 n && ((a == 0xff) && (b == 0xfe))
      then (lib.get_handler encoding_utf16le, (r, n - 2))
      else (lib.get_handler charset, (a ∷ b ∷ r, n))
  after_bom charset n s = (lib.get_handler charset, (s, n))

  -- The converter for a charset other than UTF-8, and the bytes to convert.
  unfoldable pub choose_coder : ℕ → Str → Str → ℕ → Option Coder × (Str × ℕ)
  choose_coder charset encoding string n =
      if (charset == encoding_utf16le) || (charset == encoding_utf16be)
      then after_bom charset n string
      else if charset == encoding_error
      then (lib.find_handler encoding, (string, n))
      else if charset == encoding_none
      then (none, (string, n))
      else (lib.get_handler charset, (string, n))

  unfoldable pub pmm_fast_encode_string : ℕ → Str → Str → ℕ → Cmd (Option Str)
  pmm_fast_encode_string charset string encoding len =
      let n = if len == 0 then length (c_string string) else len in
      let known = known_charset charset encoding in
      if is_ascii n string || (known == encoding_utf8)
      then pure (some (c_string string))
      else (let (coder, (bytes, m)) = choose_coder known encoding string n in
          run_coder coder bytes m)

  -- The length that is returned through a pointer is the length of the result.
  unfoldable pub pmm_fast_decode_string : ℕ → Option Str → Str → Cmd (Option Str)
  pmm_fast_decode_string charset none encoding = do
    when (known_charset charset encoding == encoding_none) report_no_encoding
    pure none
  pmm_fast_decode_string charset (some string) encoding =
      let known = known_charset charset encoding in
      if known == encoding_utf8
      then pure (some (c_string string))
      else if known == encoding_error
      then pure (run_decoder (lib.find_handler encoding) string)
      else if known == encoding_none
      then (do report_no_encoding; pure none)
      else pure (run_decoder (lib.get_handler known) string)

  unfoldable pub pmm_encode_string : Option Str → Option Str → ℕ → Cmd (Option Str)
  pmm_encode_string encoding none len = pure none
  pmm_encode_string none (some string) len = pure (some (c_string string))
  pmm_encode_string (some encoding) (some string) len =
      pmm_fast_encode_string (lib.parse_encoding encoding) string encoding len

  -- An absent encoding counts as UTF-8, and so does one that xmlParseCharEncoding calls NONE.
  unfoldable pub charset_of : Option Str → ℕ
  charset_of none = encoding_utf8
  charset_of (some encoding) =
      let enc = lib.parse_encoding encoding in if enc == 0 then encoding_utf8 else enc

  unfoldable pub c2sv : Option Str → Option Str → Scalar
  c2sv none encoding = undef_scalar
  c2sv (some string) encoding = text_scalar (c_string string) (charset_of encoding == encoding_utf8)

  -- The string, already copied up to its first NUL, is converted unless it is UTF-8; `len` is the length of
  -- the scalar.
  unfoldable pub encode_copy : Str → Bool → Option Str → ℕ → Cmd (Option Str)
  encode_copy string utf8 none len = pure (some string)
  encode_copy string utf8 (some encoding) len =
      if utf8 then pure (some string) else pmm_encode_string (some encoding) (some string) len

  unfoldable pub sv2c : Scalar → Option Str → Cmd (Option Str)
  sv2c no_scalar encoding = pure none
  sv2c undef_scalar encoding = pure none
  sv2c unset_scalar encoding = pure none
  sv2c (text_scalar bytes utf8) encoding =
      let string = c_string bytes in
      if ltb 0 (length string)
      then encode_copy string utf8 encoding (length bytes)
      else pure (some string)
