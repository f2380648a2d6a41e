-- ===== src/Xs/Add.antt =====
-- addChild and addSibling (LibXML.xs), which let libxml2 put the node in.
use perl_xml_lib_xml.Common.{ℕ, Bool, false, ◌&&◌, not, none, ◌==◌, if◌then◌else◌}
use perl_xml_lib_xml.Store.{
  Ptr, null, NodeType, document, document_type, document_frag, notation, html_document,
  docb_document, dtd, element_decl, attribute_decl, entity_decl, namespace_decl,
  hierarchy_request_err, not_supported, unsupported_node_type, add_child_failed,
}
use perl_xml_lib_xml.Store.Kinds.{is_fragment, is_text}
use perl_xml_lib_xml.Store.Outcome.{Cmd, pure, croak, when, ◌>>=◌, ◌>>◌}
use perl_xml_lib_xml.Store.Fields.{get_kind, get_name, get_priv, set_proxy_node}
use perl_xml_lib_xml.Libxml.{Libxml}
use perl_xml_lib_xml.Proxy.Sv.{pmm_node_to_sv}
use perl_xml_lib_xml.Proxy.Owner.{pmm_fix_owner}
use perl_xml_lib_xml.Xs.Kept.{Sv, sv_proxy, owner_of, keep_dtd, lib_xml_reparent_removed_node}

-- The kinds of node at which addChild gives up.
unfoldable pub check_added : NodeType → Cmd (Unit {0})
check_added document_frag = croak not_supported
check_added document = croak hierarchy_request_err
check_added html_document = croak hierarchy_request_err
check_added docb_document = croak hierarchy_request_err
check_added notation = croak unsupported_node_type
check_added namespace_decl = croak unsupported_node_type
check_added dtd = croak unsupported_node_type
check_added document_type = croak unsupported_node_type
check_added entity_decl = croak unsupported_node_type
check_added element_decl = croak unsupported_node_type
check_added attribute_decl = croak unsupported_node_type
check_added _ = pure tt

module _ (lib : Libxml) (fuel : ℕ) where
  unfoldable pub xs_add_child : Ptr → Ptr → Cmd Sv
  xs_add_child self node = do
    kind ← get_kind node
    check_added kind
    lib.unlink_node node
    proxy ← get_priv node
    added ← lib.add_child self node
    if added == null then croak add_child_failed else do
      when (not (added == node)) (set_proxy_node proxy null)
      owner ← owner_of self
      sv ← pmm_node_to_sv lib added owner
      self_proxy ← get_priv self
      when (not (added == self)) (do pmm_fix_owner lib fuel (sv_proxy sv) self_proxy; pure tt)
      pure sv

  -- Two text nodes with the same name, which xmlAddSibling may merge. The code compares the pointers;
  -- the names of text nodes are two constants of libxml2 that differ as texts, too.
  unfoldable pub may_merge : Ptr → Ptr → Cmd Bool
  may_merge self node = do
    kind ← get_kind self
    kind' ← get_kind node
    if not (is_text kind && is_text kind')
        then pure false
        else (do name ← get_name self; name' ← get_name node; pure (lib.str_equal name name'))

  -- A copy is added, and the node itself is taken out.
  unfoldable pub add_copy : Ptr → Ptr → Ptr → Cmd Sv
  add_copy self node owner = do
    copy ← lib.copy_node node 0
    added ← lib.add_sibling self copy
    if added == null then (do lib.free_node copy; pure none) else (do
      sv ← pmm_node_to_sv lib added owner
      lib.unlink_node node
      lib_xml_reparent_removed_node lib fuel node
      pure sv)

  unfoldable pub xs_add_sibling : Ptr → Ptr → Cmd Sv
  xs_add_sibling self node = do
    kind ← get_kind node
    if is_fragment kind then croak not_supported else do
      owner ← owner_of self
      merge ← may_merge self node
      if merge then add_copy self node owner else do
        added ← lib.add_sibling self node
        if added == null then pure none else do
          sv ← pmm_node_to_sv lib added owner
          keep_dtd lib node self
          pmm_fix_owner lib fuel (sv_proxy sv) owner
          pure sv
