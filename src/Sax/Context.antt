-- ===== src/Sax/Context.antt =====
-- The SAX state of a parser context (perl-libxml-sax.c: PmmSAXInitContext, PmmSAXCloseContext,
-- PmmUpdateLocator). Perl objects are addresses; the locator is its value, so that counting its references is
-- nothing here. The contents of the table of callbacks are in Sax/Events.
use perl_xml_lib_xml.Common.{ℕ, not, Option, none, some, [], ◌∷◌, ◌==◌, if◌then◌else◌}
use perl_xml_lib_xml.Hash.{
  key_encoding, key_line_number, key_column_number, key_xml_version, number, Hash, hv_store,
}
use perl_xml_lib_xml.Store.{Ptr, null, Str, Store}
use perl_xml_lib_xml.Store.Outcome.{Cmd, pure, when, ◌>>=◌, ◌>>◌}
use perl_xml_lib_xml.Store.MoreFields.{
  get_ctxt_private, set_ctxt_private, get_ctxt_sax, set_ctxt_sax, set_sax_ns_stack,
  get_sax_ns_stack_root, set_sax_ns_stack_root, get_sax_locator, set_sax_locator, get_sax_handler,
  set_sax_handler, get_sax_parser, set_sax_parser, set_sax_saved_error, get_sax_charbuf,
  set_sax_charbuf, set_sax_joinchars,
}
use perl_xml_lib_xml.Libxml.{Libxml}
use perl_xml_lib_xml.Perl.{Perl}
use perl_xml_lib_xml.Sax.Buffer.{cbuffer_new, cbuffer_free}
use perl_xml_lib_xml.Sax.Values.{store_not_empty}

abbrev pub stack_name : Str
stack_name = b's' ∷ b't' ∷ b'a' ∷ b'c' ∷ b'k' ∷ []

module _ (lib : Libxml) (perl : Perl) where
  unfoldable pub pmm_sax_init_context : Ptr → Ptr → Ptr → Cmd (Unit {0})
  pmm_sax_init_context ctxt parser saved_error = do
    vec ← lib.malloc_sax_vector
    root ← lib.new_doc
    set_sax_ns_stack_root vec root
    stack ← lib.new_doc_node root null (some stack_name)
    set_sax_ns_stack vec stack
    lib.add_child root stack
    set_sax_locator vec none
    set_sax_saved_error vec saved_error
    perl.sv_refcnt_inc parser
    set_sax_parser vec parser
    handler ← perl.fetch_handler parser
    when (not (handler == null)) (perl.sv_refcnt_inc handler)
    set_sax_handler vec handler
    joinchars ← perl.fetch_join_characters parser
    set_sax_joinchars vec joinchars
    charbuf ← if joinchars == 0 then pure null else cbuffer_new lib
    set_sax_charbuf vec charbuf
    old ← get_ctxt_sax ctxt
    when (not (old == null)) (lib.free_sax old)
    table ← lib.malloc_sax
    set_ctxt_sax ctxt table
    set_ctxt_private ctxt vec

  unfoldable pub pmm_sax_close_context : ℕ → Ptr → Cmd (Unit {0})
  pmm_sax_close_context fuel ctxt = do
    vec ← get_ctxt_private ctxt
    handler ← get_sax_handler vec
    when (not (handler == null)) (do perl.sv_refcnt_dec handler; set_sax_handler vec null)
    charbuf ← get_sax_charbuf vec
    cbuffer_free lib fuel charbuf
    set_sax_charbuf vec null
    table ← get_ctxt_sax ctxt
    lib.free_sax table
    set_ctxt_sax ctxt null
    parser ← get_sax_parser vec
    perl.sv_refcnt_dec parser
    set_sax_parser vec null
    root ← get_sax_ns_stack_root vec
    lib.free_doc root
    set_sax_ns_stack_root vec null
    set_sax_locator vec none
    lib.free_sax_vector vec
    set_ctxt_private ctxt null

module _ (lib : Libxml) where
  -- What the locator says after the parser moved on.
  unfoldable pub located : Ptr → Store → Hash → Hash
  located ctxt h locator =
      let line = hv_store locator key_line_number (number (lib.input_line ctxt h)) in
      let column = hv_store line key_column_number (number (lib.input_col ctxt h)) in
      let encoded = store_not_empty column key_encoding (lib.input_encoding ctxt h) in
      store_not_empty encoded key_xml_version (lib.input_version ctxt h)

  unfoldable pub update_locator : Ptr → Ptr → Option Hash → Cmd (Unit {0})
  update_locator ctxt sax none = pure tt
  update_locator ctxt sax (some locator) =
      λ h. set_sax_locator sax (some (located ctxt h locator)) h

  unfoldable pub pmm_update_locator : Ptr → Cmd (Unit {0})
  pmm_update_locator ctxt = do
    sax ← get_ctxt_private ctxt
    locator ← get_sax_locator sax
    update_locator ctxt sax locator
