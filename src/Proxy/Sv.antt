-- ===== src/Proxy/Sv.antt =====
-- Between Perl values and nodes (perl-libxml-mm.c: PmmNodeToSv, PmmCloneNode, PmmSvNodeExt, PmmSvOwner,
-- PmmSetSvOwner). A Perl value that refers to a node is the address of a proxy; `none` is undef.
use perl_xml_lib_xml.Common.{Bool, not, Option, none, some, ◌==◌, if◌then◌else◌, is_some}
use perl_xml_lib_xml.Store.{
  Ptr, null, NodeType, element, attribute, text, cdata_section, entity_ref, pi, comment, document,
  document_type, document_frag, html_document, dtd, entity_decl, namespace_decl, out_of_memory,
}
use perl_xml_lib_xml.Store.Outcome.{Cmd, pure, croak, when, ◌>>=◌, ◌>>◌}
use perl_xml_lib_xml.Store.Fields.{
  get_kind, get_priv, get_encoding, get_proxy_node, set_proxy_node, get_proxy_owner,
  set_proxy_owner, set_proxy_encoding,
}
use perl_xml_lib_xml.Libxml.{Libxml}
use perl_xml_lib_xml.Proxy.Node.{
  PerlClass, pmm_node_type_name, has_doc_proxy, pmm_new_node, pmm_refcnt_inc,
}

-- How PmmCloneNode copies a node of a kind.
pub data Copy : Type 0 where
  by_node by_prop by_doc by_dtd by_namespace no_copy : Copy

unfoldable pub copy_of : NodeType → Copy
copy_of element = by_node
copy_of text = by_node
copy_of cdata_section = by_node
copy_of entity_ref = by_node
copy_of pi = by_node
copy_of comment = by_node
copy_of document_frag = by_node
copy_of entity_decl = by_node
copy_of attribute = by_prop
copy_of document = by_doc
copy_of html_document = by_doc
copy_of document_type = by_dtd
copy_of dtd = by_dtd
copy_of namespace_decl = by_namespace
copy_of _ = no_copy

module _ (lib : Libxml) where
  -- The first proxy of a node gets the owner, whose count goes up.
  unfoldable pub proxy_with_owner : Ptr → Ptr → Cmd Ptr
  proxy_with_owner node owner = do
    priv ← get_priv node
    proxy ← pmm_new_node lib node
    if not (priv == null)
        then pure proxy
        else (if proxy == null then croak out_of_memory else (do
          when (not (owner == null))
              (do o ← get_proxy_node owner; set_proxy_owner proxy o; pmm_refcnt_inc owner)
          pure proxy))

  unfoldable pub copy_encoding : Ptr → Ptr → Cmd (Unit {0})
  copy_encoding node proxy = do
    kind ← get_kind node
    when (has_doc_proxy kind) (do
      encoding ← get_encoding node
      when (is_some encoding) (set_proxy_encoding proxy (lib.parse_char_encoding encoding)))

  unfoldable pub pmm_node_to_sv : Ptr → Ptr → Cmd (Option (PerlClass × Ptr))
  pmm_node_to_sv node owner = if node == null then pure none else do
    kind ← get_kind node
    proxy ← proxy_with_owner node owner
    pmm_refcnt_inc proxy
    copy_encoding node proxy
    pure (some (pmm_node_type_name kind, proxy))

  unfoldable pub pmm_clone_node : Ptr → Bool → Cmd Ptr
  pmm_clone_node node recursive =
      if node == null then pure null else do kind ← get_kind node; copy (copy_of kind)
    where
      copy : Copy → Cmd Ptr
      copy by_node = lib.copy_node node (if recursive then 1 else 2)
      copy by_prop = lib.copy_prop null node
      copy by_doc = lib.copy_doc node recursive
      copy by_dtd = lib.copy_dtd node
      copy by_namespace = lib.copy_namespace node
      copy no_copy = pure null

-- PmmSvNodeExt for an object of a class derived from XML::LibXML::Node.
unfoldable pub pmm_sv_node : Option Ptr → Cmd Ptr
pmm_sv_node none = pure null
pmm_sv_node (some proxy) = if proxy == null then pure null else do
  node ← get_proxy_node proxy
  if node == null then pure null else (do
    priv ← get_priv node
    if priv == proxy then pure node else (do set_proxy_node proxy null; pure null))

unfoldable pub pmm_sv_owner : Option Ptr → Cmd Ptr
pmm_sv_owner none = pure null
pmm_sv_owner (some proxy) = if proxy == null then pure null else get_proxy_owner proxy

unfoldable pub pmm_set_sv_owner : Option Ptr → Ptr → Cmd (Unit {0})
pmm_set_sv_owner none extra = pure tt
pmm_set_sv_owner (some proxy) extra = do
  o ← get_proxy_node extra
  set_proxy_owner proxy o
  pmm_refcnt_inc extra
