-- ===== src/Examples/Texts.antt =====
-- The properties of strings and of arrays of strings, with a converter for two bytes.
use perl_xml_lib_xml.Common.{◌≡◌, refl, false, some, [], ◌∷◌, arith}
use perl_xml_lib_xml.Store.{Str, Store, valid}
use perl_xml_lib_xml.Store.Outcome.{done, fault, ◌>>=◌}
use perl_xml_lib_xml.Strings.Scalar.{text_scalar}
use perl_xml_lib_xml.Strings.Convert.{is_ascii, pmm_fast_encode_string, sv2c}
use perl_xml_lib_xml.Strings.Node.{node_c2sv, node_sv2c}
use perl_xml_lib_xml.Strings.OverRead.{IsPlainCharset, sv2c-over_read, sv2c-converts}
use perl_xml_lib_xml.Strings.RoundTrip.{IsEncoded, node_c2sv-node_sv2c}
use perl_xml_lib_xml.Examples.Stores.{small_store}
use perl_xml_lib_xml.Examples.Handlers.{small_coder, small_coders}

abbrev latin : Str
latin = b'l' ∷ b'1' ∷ []

abbrev ab : Str
ab = b'a' ∷ b'b' ∷ []

ten-IsPlainCharset : IsPlainCharset small_coders 10 small_coder
ten-IsPlainCharset = record {
  not_error = refl;
  not_none = refl;
  not_utf8 = refl;
  not_utf16le = refl;
  not_utf16be = refl;
  handler = refl;
}

sv2c-over_read_example :
    sv2c small_coders (text_scalar (b'a' ∷ 0 ∷ b'b' ∷ []) false) (some latin) small_store ≡ fault
sv2c-over_read_example =
    sv2c-over_read small_coders small_coder b'a' b'b' [] [] latin small_store ten-IsPlainCharset
      (omega arith, tt)

sv2c-converts_example :
    sv2c small_coders (text_scalar (233 ∷ []) false) (some latin) small_store
    ≡ done (some (195 ∷ 233 ∷ [])) small_store
unfolding is_ascii perl_xml_lib_xml.Strings.Convert.converted
    perl_xml_lib_xml.Strings.Scalar.c_string
sv2c-converts_example =
    sv2c-converts small_coders small_coder (233 ∷ []) latin small_store ten-IsPlainCharset
      (omega arith, tt) refl

abbrev encoded_store : Store
encoded_store = record small_store { encoding = λ p. some latin; proxy_encoding = λ p. 10 }

small-IsEncoded : IsEncoded encoded_store 4 1 101 latin 10
unfolding valid
small-IsEncoded = record {
  node_live = refl;
  in_doc = refl;
  doc_live = refl;
  has_encoding = refl;
  has_proxy = refl;
  proxy_live = refl;
  has_charset = refl;
}

node_c2sv-node_sv2c_example :
    (node_c2sv small_coders (some (195 ∷ 233 ∷ [])) 4 >>= λ scalar. node_sv2c small_coders scalar 4)
      encoded_store
    ≡ done (some (195 ∷ 233 ∷ [])) encoded_store
unfolding is_ascii
node_c2sv-node_sv2c_example =
    node_c2sv-node_sv2c small_coders encoded_store 4 1 101 latin 10 small_coder (195 ∷ 233 ∷ [])
      (233 ∷ []) small-IsEncoded ten-IsPlainCharset refl refl (omega arith, (omega arith, tt))
      (omega arith) (λ ascii. absurd cc)
