-- ===== src/Strings/Node.antt =====
-- Strings of a node between Perl and libxml2, by the encoding of its document (nodeC2Sv, nodeSv2C). The
-- number of the encoding stands in the proxy of the document.
use perl_xml_lib_xml.Common.{
  ℕ, Bool, ◌&&◌, not, Option, none, some, [], ◌==◌, ltb, if◌then◌else◌, length,
}
use perl_xml_lib_xml.Store.{Ptr, null, Str}
use perl_xml_lib_xml.Store.Outcome.{Cmd, pure, when, ◌>>=◌, ◌>>◌}
use perl_xml_lib_xml.Store.Fields.{
  get_doc, get_priv, get_encoding, get_proxy_encoding, set_proxy_encoding,
}
use perl_xml_lib_xml.Strings.Scalar.{
  Scalar, no_scalar, undef_scalar, unset_scalar, text_scalar, c_string, Coders, encoding_none,
  encoding_utf8,
}
use perl_xml_lib_xml.Strings.Convert.{pmm_fast_encode_string, pmm_fast_decode_string, c2sv, sv2c}

-- PmmNodeEncoding(real_doc), after XML_CHAR_ENCODING_NONE, which XML::LibXSLT leaves there, is corrected.
unfoldable pub corrected_encoding : Ptr → Cmd ℕ
corrected_encoding real_doc = do
  proxy ← get_priv real_doc
  charset ← get_proxy_encoding proxy
  when (charset == encoding_none) (set_proxy_encoding proxy encoding_utf8)
  get_proxy_encoding proxy

-- The document of the node and the name of its encoding, if there are both.
unfoldable pub document_encoding : Ptr → Cmd (Option (Ptr × Str))
document_encoding refnode = if refnode == null then pure none else do
  real_doc ← get_doc refnode
  if real_doc == null then pure none else do
    encoding ← get_encoding real_doc
    pure (elim encoding [ none ↦ none | some e ↦ some (real_doc, e) ])

-- newSVpvn gives an undefined value for NULL.
unfoldable pub decoded_scalar : Option Str → Bool → Scalar
decoded_scalar none utf8 = unset_scalar
decoded_scalar (some decoded) utf8 = text_scalar decoded utf8

-- xmlStrndup of the scalar's bytes, if nothing was converted.
unfoldable pub encoded_or_bytes : Option Str → Str → Option Str
encoded_or_bytes none bytes = some (c_string bytes)
encoded_or_bytes (some string) bytes = some string

module _ (lib : Coders) where
  unfoldable pub decode_for : Option Str → Option (Ptr × Str) → Cmd Scalar
  decode_for string none = pure (c2sv lib string none)
  decode_for string (some (real_doc, encoding)) = do
    charset ← corrected_encoding real_doc
    decoded ← pmm_fast_decode_string lib charset string encoding
    pure (decoded_scalar decoded (charset == encoding_utf8))

  unfoldable pub node_c2sv : Option Str → Ptr → Cmd Scalar
  node_c2sv string refnode = do found ← document_encoding refnode; decode_for string found

  unfoldable pub encode_bytes : Str → Bool → Ptr → Str → Cmd (Option Str)
  encode_bytes bytes utf8 real_doc encoding =
      if ltb 0 (length bytes) && not utf8
      then (do
        charset ← corrected_encoding real_doc
        string ← pmm_fast_encode_string lib charset bytes encoding (length bytes)
        pure (encoded_or_bytes string bytes))
      else pure (some (c_string bytes))

  -- SvPV of an undefined value is the empty string.
  unfoldable pub encode_for : Scalar → Option (Ptr × Str) → Cmd (Option Str)
  encode_for scalar none = sv2c lib scalar none
  encode_for no_scalar (some found) = pure none
  encode_for undef_scalar (some found) = pure none
  encode_for unset_scalar (some found) = pure (some [])
  encode_for (text_scalar bytes utf8) (some (real_doc, encoding)) =
      encode_bytes bytes utf8 real_doc encoding

  unfoldable pub node_sv2c : Scalar → Ptr → Cmd (Option Str)
  node_sv2c scalar refnode = do found ← document_encoding refnode; encode_for scalar found
