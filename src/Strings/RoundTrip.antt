-- ===== src/Strings/RoundTrip.antt =====
-- A text of a document that goes to Perl and comes back (nodeC2Sv, nodeSv2C).
use perl_xml_lib_xml.Common.{
  ℕ, ◌<◌, ◌≡◌, refl, ap, true, false, some, arith, ◌==◌, ltb, length, Bool-cases, inl, inr,
}
use perl_xml_lib_xml.Store.{Ptr, Str, Store, valid}
use perl_xml_lib_xml.Store.Outcome.{done, ◌>>=◌}
use perl_xml_lib_xml.Dom.Links.Chains.{valid-ne_null}
use perl_xml_lib_xml.Strings.Scalar.{text_scalar, c_string, Coder, Coders}
use perl_xml_lib_xml.Strings.Convert.{
  is_ascii, known_charset, converted, run_decoder, pmm_fast_encode_string, pmm_fast_decode_string,
}
use perl_xml_lib_xml.Strings.Node.{
  corrected_encoding, document_encoding, decoded_scalar, encoded_or_bytes, decode_for, node_c2sv,
  encode_bytes, encode_for, node_sv2c,
}
use perl_xml_lib_xml.Strings.NoNul.{NoNul, c_string-NoNul, given_length}
use perl_xml_lib_xml.Strings.OverRead.{
  IsPlainCharset, pmm_fast_encode_string-plain, run_coder-whole,
}

-- `node` stands in the document `doc`, which has the encoding `encoding` with the number `charset` in its proxy.
pub record IsEncoded (h : Store) (node doc proxy : Ptr) (encoding : Str) (charset : ℕ)
    : Type 0 where
  pub node_live : valid h.live node ≡ true
  pub in_doc : h.doc node ≡ doc
  pub doc_live : valid h.live doc ≡ true
  pub has_encoding : h.encoding doc ≡ some encoding
  pub has_proxy : h.priv doc ≡ proxy
  pub proxy_live : valid h.proxy_live proxy ≡ true
  pub has_charset : h.proxy_encoding proxy ≡ charset

document_encoding-run :
    (h : Store) (node doc proxy : Ptr) (encoding : Str) (charset : ℕ)
    → IsEncoded h node doc proxy encoding charset
    → document_encoding node h ≡ done (some (doc, encoding)) h
unfolding document_encoding
document_encoding-run h node doc proxy encoding charset is =
    rw
      (
        valid-ne_null h.live node is.node_live,
        is.node_live,
        is.in_doc,
        valid-ne_null h.live doc is.doc_live,
        is.doc_live,
        is.has_encoding,
        is.in_doc,
      )
      refl

corrected_encoding-run :
    (h : Store) (node doc proxy : Ptr) (encoding : Str) (charset : ℕ)
    → IsEncoded h node doc proxy encoding charset
    → (charset == 0) ≡ false
    → corrected_encoding doc h ≡ done charset h
unfolding corrected_encoding
corrected_encoding-run h node doc proxy encoding charset is set =
    rw
      (is.doc_live, is.has_proxy, is.proxy_live, is.has_charset, set, is.proxy_live, is.has_charset)
      refl

-- What the decoded bytes `b` become again: themselves, when they are ASCII.
encoded_again :
    (lib : Coders) (charset : ℕ) (coder : Coder) (t b encoding : Str) (h : Store)
    → IsPlainCharset lib charset coder
    → coder.to_utf8 b ≡ some t
    → NoNul t
    → 0 < length b
    → (is_ascii (length b) b ≡ true → b ≡ t)
    → pmm_fast_encode_string lib charset b encoding (length b) h ≡ done (some t) h
unfolding pmm_fast_encode_string converted
encoded_again lib charset coder t b encoding h is back plain some_bytes same =
    elim (Bool-cases (is_ascii (length b) b)) [
      | inl e ↦
          let equal = ap c_string (same e) in
          rw (given_length b, e, equal, c_string-NoNul t plain) refl
      | inr e ↦
          rw
            (
              pmm_fast_encode_string-plain lib charset coder b encoding (length b) h is some_bytes
                  e,
              run_coder-whole coder b h,
              back,
              c_string-NoNul t plain,
            )
            refl
    ]

node_c2sv-run :
    (lib : Coders) (h : Store) (node doc proxy : Ptr) (encoding : Str) (charset : ℕ) (coder : Coder)
    (t b : Str)
    → IsEncoded h node doc proxy encoding charset
    → IsPlainCharset lib charset coder
    → coder.from_utf8 t ≡ some b
    → NoNul t
    → node_c2sv lib (some t) node h ≡ done (text_scalar b false) h
unfolding node_c2sv decode_for decoded_scalar pmm_fast_decode_string known_charset run_decoder
node_c2sv-run lib h node doc proxy encoding charset coder t b is plain there no_nul =
    rw
      (
        document_encoding-run h node doc proxy encoding charset is,
        corrected_encoding-run h node doc proxy encoding charset is plain.not_none,
        plain.not_error,
        plain.not_utf8,
        plain.not_error,
        plain.not_none,
        plain.handler,
        c_string-NoNul t no_nul,
        there,
      )
      refl

-- Let the document of the node have a live proxy with its encoding, one that xmlParseCharEncoding knows, other than UTF-8, UTF-16LE and
-- UTF-16BE, with a converter that libxml2 uses in both directions; let the text have no NUL and the
-- converter turn it into at least one byte and these bytes into the text again, and let those bytes be ASCII
-- only where they are the text itself. Then nodeSv2C makes the same text of what nodeC2Sv gave to
-- Perl, and the store stays as it is.
pub node_c2sv-node_sv2c :
    (lib : Coders) (h : Store) (node doc proxy : Ptr) (encoding : Str) (charset : ℕ) (coder : Coder)
    (t b : Str)
    → IsEncoded h node doc proxy encoding charset
    → IsPlainCharset lib charset coder
    → coder.from_utf8 t ≡ some b
    → coder.to_utf8 b ≡ some t
    → NoNul t
    → 0 < length b
    → (is_ascii (length b) b ≡ true → b ≡ t)
    → (node_c2sv lib (some t) node >>= λ scalar. node_sv2c lib scalar node) h ≡ done (some t) h
unfolding node_sv2c encode_for encode_bytes encoded_or_bytes
node_c2sv-node_sv2c lib h node doc proxy encoding charset coder t b is plain there back no_nul
      some_bytes same =
    let some_length : ltb 0 (length b) ≡ true = ground arith in
    rw
      (
        node_c2sv-run lib h node doc proxy encoding charset coder t b is plain there no_nul,
        document_encoding-run h node doc proxy encoding charset is,
        some_length,
        corrected_encoding-run h node doc proxy encoding charset is plain.not_none,
        encoded_again lib charset coder t b encoding h plain back no_nul some_bytes same,
      )
      refl
