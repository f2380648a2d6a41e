-- ===== src/Sax/Events.antt =====
-- The callbacks that libxml2 calls while it parses (perl-libxml-sax.c: PSaxSetDocumentLocator to
-- PSaxExternalSubset), and the table of them (PSaxGetHandler). The fuel bounds the loops over the buffer and
-- over an element's namespace declarations.
use perl_xml_lib_xml.Common.{ℕ, not, ◌&&◌, Option, none, some, List, [], ◌∷◌, ◌==◌, is_some}
use perl_xml_lib_xml.Hash.{
  key_version, key_encoding, string, Hash, hv_store, Method, set_document_locator, start_document,
  xml_decl, start_element, end_element, characters, comment_method, start_cdata, end_cdata,
  processing_instruction, start_dtd, end_dtd, parser_end_document, Payload, no_payload, fields,
  element_fields,
}
use perl_xml_lib_xml.Store.{Ptr, null, Str}
use perl_xml_lib_xml.Store.Outcome.{Cmd, pure, when, ◌>>=◌, ◌>>◌}
use perl_xml_lib_xml.Store.MoreFields.{
  get_ctxt_private, get_sax_handler, get_sax_parser, set_sax_locator,
}
use perl_xml_lib_xml.Libxml.{Libxml}
use perl_xml_lib_xml.Perl.{Perl}
use perl_xml_lib_xml.Sax.Values.{
  pmm_gen_char_data_sv, pmm_gen_pi_sv, pmm_gen_dtd_sv, pmm_gen_locator, pmm_gen_element_sv,
}
use perl_xml_lib_xml.Sax.NsStack.{called, pmm_extend_ns_stack, pmm_narrow_ns_stack}
use perl_xml_lib_xml.Sax.Attributes.{pmm_gen_attribute_hash_sv}
use perl_xml_lib_xml.Sax.Context.{pmm_update_locator}
use perl_xml_lib_xml.Sax.Characters.{flush_joined, psax_characters}
use perl_xml_lib_xml.Sax.Errors.{pmm_sax_warning, pmm_sax_error, pmm_sax_fatal_error}

abbrev pub default_version : Str
default_version = b'1' ∷ b'.' ∷ b'0' ∷ []

-- What the XML declaration says; the version is "1.0" if the document has none.
unfoldable pub xml_decl_fields : Option Str → Option Str → Hash
xml_decl_fields version none =
    hv_store [] key_version (string (elim version [ none ↦ default_version | some v ↦ v ]))
xml_decl_fields version (some encoding) =
    hv_store
      (hv_store [] key_version (string (elim version [ none ↦ default_version | some v ↦ v ])))
      key_encoding (string encoding)

module _ (perl : Perl) where
  unfoldable pub tell : Ptr → Method → Payload → Cmd (Unit {0})
  tell handler method payload =
      called perl (record { object = handler; method = method; payload = payload })

module _ (lib : Libxml) (perl : Perl) where
  -- The locator of libxml2 gives the public and the system id.
  unfoldable pub psax_set_document_locator : ℕ → Ptr → Option Str → Option Str → Cmd (Unit {0})
  psax_set_document_locator fuel ctxt public_id system_id = do
    sax ← get_ctxt_private ctxt
    handler ← get_sax_handler sax
    flush_joined lib perl fuel ctxt sax
    set_sax_locator sax (some (pmm_gen_locator public_id system_id))
    tell perl handler set_document_locator (fields (pmm_gen_locator public_id system_id))

  unfoldable pub psax_start_document : Ptr → Cmd (Unit {0})
  psax_start_document ctxt = do
    sax ← get_ctxt_private ctxt
    handler ← get_sax_handler sax
    when (not (handler == null)) (do
      pmm_update_locator lib ctxt
      tell perl handler start_document (fields [])
      λ h.
          tell perl handler xml_decl
            (fields (xml_decl_fields (lib.ctxt_version ctxt h) (lib.input_encoding ctxt h))) h)

  unfoldable pub psax_end_document : ℕ → Ptr → Cmd (Unit {0})
  psax_end_document fuel ctxt = do
    sax ← get_ctxt_private ctxt
    pmm_update_locator lib ctxt
    flush_joined lib perl fuel ctxt sax
    parser ← get_sax_parser sax
    tell perl parser parser_end_document no_payload

  unfoldable pub psax_start_element :
      ℕ → Ptr → Option Str → List (Str × Option Str) → Cmd (Unit {0})
  psax_start_element fuel ctxt name attr = do
    sax ← get_ctxt_private ctxt
    handler ← get_sax_handler sax
    pmm_update_locator lib ctxt
    flush_joined lib perl fuel ctxt sax
    pmm_extend_ns_stack lib sax name
    attrhash ← pmm_gen_attribute_hash_sv lib perl sax attr handler
    element ← pmm_gen_element_sv lib sax name
    tell perl handler start_element (element_fields element attrhash)

  unfoldable pub psax_end_element : ℕ → Ptr → Option Str → Cmd (Unit {0})
  psax_end_element fuel ctxt name = do
    sax ← get_ctxt_private ctxt
    handler ← get_sax_handler sax
    pmm_update_locator lib ctxt
    flush_joined lib perl fuel ctxt sax
    element ← pmm_gen_element_sv lib sax name
    tell perl handler end_element (fields element)
    pmm_narrow_ns_stack lib perl fuel sax handler

  unfoldable pub psax_comment : ℕ → Ptr → Option Str → Cmd (Unit {0})
  psax_comment fuel ctxt ch = do
    sax ← get_ctxt_private ctxt
    handler ← get_sax_handler sax
    pmm_update_locator lib ctxt
    when (is_some ch && not (handler == null)) (do
      flush_joined lib perl fuel ctxt sax
      tell perl handler comment_method (fields (pmm_gen_char_data_sv ch)))

  unfoldable pub psax_cdata_block : ℕ → Ptr → Option Str → Cmd (Unit {0})
  psax_cdata_block fuel ctxt ch = do
    sax ← get_ctxt_private ctxt
    handler ← get_sax_handler sax
    pmm_update_locator lib ctxt
    when (is_some ch && not (handler == null)) (do
      flush_joined lib perl fuel ctxt sax
      tell perl handler start_cdata no_payload
      tell perl handler characters (fields (pmm_gen_char_data_sv ch))
      tell perl handler end_cdata no_payload)

  unfoldable pub psax_processing_instruction : ℕ → Ptr → Option Str → Option Str → Cmd (Unit {0})
  psax_processing_instruction fuel ctxt target text = do
    sax ← get_ctxt_private ctxt
    handler ← get_sax_handler sax
    pmm_update_locator lib ctxt
    when (not (handler == null)) (do
      flush_joined lib perl fuel ctxt sax
      tell perl handler processing_instruction (fields (pmm_gen_pi_sv target text)))

  -- After end_dtd the code does not look whether the handler died.
  unfoldable pub psax_external_subset : Ptr → Option Str → Option Str → Option Str → Cmd (Unit {0})
  psax_external_subset ctxt name external_id system_id = do
    sax ← get_ctxt_private ctxt
    handler ← get_sax_handler sax
    pmm_update_locator lib ctxt
    when (not (handler == null)) (do
      tell perl handler start_dtd (fields (pmm_gen_dtd_sv name external_id system_id))
      died ← perl.call_method (record { object = handler; method = end_dtd; payload = fields [] })
      pure tt)

-- The slots of a xmlSAXHandler that PSaxGetHandler fills, with what libxml2 hands over.
pub data Event : Type 0 where
  on_document_locator : Option Str → Option Str → Event
  on_start_document : Event
  on_end_document : Event
  on_start_element : Option Str → List (Str × Option Str) → Event
  on_end_element : Option Str → Event
  on_characters : Str → Event
  on_ignorable_whitespace : Str → Event
  on_comment : Option Str → Event
  on_cdata_block : Option Str → Event
  on_processing_instruction : Option Str → Option Str → Event
  on_warning : Str → Event
  on_error : Str → Event
  on_fatal_error : Str → Event
  on_external_subset : Option Str → Option Str → Option Str → Event

module _ (lib : Libxml) (perl : Perl) (fuel : ℕ) (ctxt : Ptr) where
  -- PSaxGetHandler: which function each slot has. endDocument is NULL, and the Perl side ends the document.
  unfoldable pub psax_get_handler : Event → Cmd (Unit {0})
  psax_get_handler (on_document_locator public_id system_id) =
      psax_set_document_locator lib perl fuel ctxt public_id system_id
  psax_get_handler on_start_document = psax_start_document lib perl ctxt
  psax_get_handler on_end_document = pure tt
  psax_get_handler (on_start_element name attr) = psax_start_element lib perl fuel ctxt name attr
  psax_get_handler (on_end_element name) = psax_end_element lib perl fuel ctxt name
  psax_get_handler (on_characters ch) = psax_characters lib perl ctxt ch
  psax_get_handler (on_ignorable_whitespace ch) = psax_characters lib perl ctxt ch
  psax_get_handler (on_comment ch) = psax_comment lib perl fuel ctxt ch
  psax_get_handler (on_cdata_block ch) = psax_cdata_block lib perl fuel ctxt ch
  psax_get_handler (on_processing_instruction target text) =
      psax_processing_instruction lib perl fuel ctxt target text
  psax_get_handler (on_warning message) = pmm_sax_warning lib perl ctxt message
  psax_get_handler (on_error message) = pmm_sax_error lib perl ctxt message
  psax_get_handler (on_fatal_error message) = pmm_sax_fatal_error lib perl ctxt message
  psax_get_handler (on_external_subset name external_id system_id) =
      psax_external_subset lib perl ctxt name external_id system_id

  -- The parser runs its events one after the other.
  unfoldable pub run_events : List Event → Cmd (Unit {0})
  run_events [] = pure tt
  run_events (e ∷ r) = do psax_get_handler e; run_events r
