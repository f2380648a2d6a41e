-- ===== src/Sax/NsStack.antt =====
-- The stack of namespaces that the SAX layer keeps as a document of its own, and the callbacks for prefixes
-- (perl-libxml-sax.c: PSaxStartPrefix, PSaxEndPrefix, PmmExtendNsStack, PmmNarrowNsStack, PmmAddNamespace).
-- The fuel of a loop bounds the declarations that it visits.
use perl_xml_lib_xml.Common.{ℕ, zero, suc, not, Option, some, [], ◌∷◌, ◌==◌, if◌then◌else◌, is_some}
use perl_xml_lib_xml.Hash.{
  key_prefix, key_namespace_uri, Hash, hv_store, start_prefix_mapping, end_prefix_mapping, fields,
  Call,
}
use perl_xml_lib_xml.Store.{Ptr, null, Str, handler_died}
use perl_xml_lib_xml.Store.Outcome.{Cmd, pure, no_fuel, croak, when, ◌>>=◌, ◌>>◌}
use perl_xml_lib_xml.Store.Fields.{
  get_name, set_name, get_parent, get_doc, get_ns, set_ns, get_ns_def, get_ns_next, get_ns_prefix,
  get_ns_href,
}
use perl_xml_lib_xml.Store.MoreFields.{get_sax_ns_stack, set_sax_ns_stack, get_sax_ns_stack_root}
use perl_xml_lib_xml.Libxml.{Libxml}
use perl_xml_lib_xml.Perl.{Perl}
use perl_xml_lib_xml.Sax.Values.{sax_value, prefix_value}

abbrev pub xml_name : Str
xml_name = b'x' ∷ b'm' ∷ b'l' ∷ []

unfoldable pub prefix_mapping : Option Str → Option Str → Hash
prefix_mapping prefix uri =
    hv_store (hv_store [] key_namespace_uri (sax_value uri)) key_prefix (prefix_value prefix)

module _ (perl : Perl) where
  -- call_method with G_EVAL, and croak_obj if `$@` is set.
  unfoldable pub called : Call → Cmd (Unit {0})
  called call = do died ← perl.call_method call; if died then croak handler_died else pure tt

  unfoldable pub psax_start_prefix : Option Str → Option Str → Ptr → Cmd (Unit {0})
  psax_start_prefix prefix uri handler = called (record {
    object = handler;
    method = start_prefix_mapping;
    payload = fields (prefix_mapping prefix uri);
  })

  unfoldable pub psax_end_prefix : Option Str → Option Str → Ptr → Cmd (Unit {0})
  psax_end_prefix prefix uri handler = called (record {
    object = handler;
    method = end_prefix_mapping;
    payload = fields (prefix_mapping prefix uri);
  })

module _ (lib : Libxml) where
  -- The new element, by the declaration of its prefix if there is one.
  unfoldable pub new_stack_node : Ptr → Option Str → Option Str → Option Str → Cmd Ptr
  new_stack_node sax name localname prefix = do
    root ← get_sax_ns_stack_root sax
    if not (is_some prefix) then lib.new_doc_node root null name else (do
      stack ← get_sax_ns_stack sax
      doc ← get_doc stack
      ns ← lib.search_ns doc stack prefix
      if ns == null then lib.new_doc_node root null name else lib.new_doc_node root ns localname)

  unfoldable pub pmm_extend_ns_stack : Ptr → Option Str → Cmd (Unit {0})
  pmm_extend_ns_stack sax name = do
    new_ns ← new_stack_node sax name (lib.split_qname name).0 (lib.split_qname name).1
    when (not (new_ns == null))
        (do stack ← get_sax_ns_stack sax; lib.add_child stack new_ns; set_sax_ns_stack sax new_ns)

  -- A declaration of the prefix that the element's name has becomes its namespace.
  unfoldable pub claim_ns : Ptr → Ptr → Option Str → Option Str → Option Str → Cmd (Unit {0})
  claim_ns stack ns name localname prefix =
      if is_some name
      then when (lib.str_equal prefix name)
          (do set_ns stack ns; set_name stack (lib.str_dup localname))
      else when (not (is_some prefix)) (set_ns stack ns)

module _ (lib : Libxml) (perl : Perl) where
  unfoldable pub end_prefixes : ℕ → Ptr → Ptr → Cmd (Unit {0})
  end_prefixes zero list handler = no_fuel
  end_prefixes (suc k) list handler = if list == null then pure tt else do
    prefix ← get_ns_prefix list
    when (not (lib.str_equal prefix (some xml_name)))
        (do href ← get_ns_href list; psax_end_prefix perl prefix href handler)
    n ← get_ns_next list
    end_prefixes k n handler

  unfoldable pub pmm_narrow_ns_stack : ℕ → Ptr → Ptr → Cmd (Unit {0})
  pmm_narrow_ns_stack fuel sax handler = do
    stack ← get_sax_ns_stack sax
    parent ← get_parent stack
    list ← get_ns_def stack
    end_prefixes fuel list handler
    top ← get_sax_ns_stack sax
    lib.unlink_node top
    lib.free_node top
    set_sax_ns_stack sax parent

  unfoldable pub pmm_add_namespace : Ptr → Option Str → Option Str → Ptr → Cmd (Unit {0})
  pmm_add_namespace sax name href handler = do
    stack ← get_sax_ns_stack sax
    if stack == null then pure tt else do
      ns ← lib.new_ns stack href name
      own ← get_ns stack
      when (own == null) (do
        qname ← get_name stack
        claim_ns lib stack ns name (lib.split_qname qname).0 (lib.split_qname qname).1)
      psax_start_prefix perl name href handler
