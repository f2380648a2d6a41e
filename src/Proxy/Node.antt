-- ===== src/Proxy/Node.antt =====
-- Making, counting and freeing proxy nodes (perl-libxml-mm.c: PmmNodeTypeName, PmmNewNode,
-- PmmNewFragment, PmmFreeNode, PmmREFCNT_dec; the macros PmmREFCNT_inc and PmmOWNERPO of
-- perl-libxml-mm.h). The fuel of pmm_refcnt_dec bounds the chain of owners.
use perl_xml_lib_xml.Common.{ℕ, zero, suc, Bool, true, false, ◌&&◌, not, ◌∷◌, ◌==◌, if◌then◌else◌}
use perl_xml_lib_xml.Store.{
  Ptr, null, NodeType, element, attribute, text, cdata_section, comment, document, document_frag,
  html_document, docb_document, dtd, namespace_decl, pi, refcnt_below_zero,
}
use perl_xml_lib_xml.Store.Outcome.{Cmd, pure, no_fuel, done, when, ◌>>=◌, ◌>>◌}
use perl_xml_lib_xml.Store.Fields.{
  get_kind, get_priv, set_priv, get_parent, get_doc, set_doc, set_ns, get_ext_subset,
  get_int_subset, get_proxy_node, set_proxy_node, get_proxy_owner, set_proxy_owner, get_proxy_count,
  set_proxy_count, set_proxy_encoding, set_psvi_status,
}
use perl_xml_lib_xml.Libxml.{Libxml}
use perl_xml_lib_xml.Proxy.Count.{int_inc, int_dec, is_negative, not_positive}

-- The Perl classes "XML::LibXML::Element" and so on that PmmNodeTypeName gives.
pub data PerlClass : Type 0 where
  element_class text_class comment_class cdata_class attr_class document_class : PerlClass
  fragment_class namespace_class dtd_class pi_class node_class : PerlClass

unfoldable pub pmm_node_type_name : NodeType → PerlClass
pmm_node_type_name element = element_class
pmm_node_type_name text = text_class
pmm_node_type_name comment = comment_class
pmm_node_type_name cdata_section = cdata_class
pmm_node_type_name attribute = attr_class
pmm_node_type_name document = document_class
pmm_node_type_name html_document = document_class
pmm_node_type_name document_frag = fragment_class
pmm_node_type_name namespace_decl = namespace_class
pmm_node_type_name dtd = dtd_class
pmm_node_type_name pi = pi_class
pmm_node_type_name _ = node_class

-- The kinds for which a `struct _DocProxyNode` is allocated.
unfoldable pub has_doc_proxy : NodeType → Bool
has_doc_proxy document = true
has_doc_proxy html_document = true
has_doc_proxy docb_document = true
has_doc_proxy _ = false

-- PmmREFCNT_inc
unfoldable pub pmm_refcnt_inc : Ptr → Cmd (Unit {0})
pmm_refcnt_inc proxy = do c ← get_proxy_count proxy; set_proxy_count proxy (int_inc c)

-- PmmOWNERPO: the proxy of the owner, or the proxy itself if it has no owner.
unfoldable pub pmm_ownerpo : Ptr → Cmd Ptr
pmm_ownerpo proxy =
    if proxy == null
    then pure proxy
    else do owner ← get_proxy_owner proxy; if owner == null then pure proxy else get_priv owner

-- How PmmFreeNode frees a node of a kind.
pub data Release : Type 0 where
  as_document as_attribute as_dtd as_node : Release

unfoldable pub release_of : NodeType → Release
release_of document = as_document
release_of html_document = as_document
release_of attribute = as_attribute
release_of dtd = as_dtd
release_of _ = as_node

module _ (lib : Libxml) where
  -- The fields that PmmNewNode sets in a block that xmlMalloc gave. XML_CHAR_ENCODING_NONE and
  -- Pmm_NO_PSVI are 0.
  unfoldable pub init_proxy : Ptr → Ptr → Cmd (Unit {0})
  init_proxy proxy node = when (not (proxy == null)) (do
    kind ← get_kind node
    when (has_doc_proxy kind) (do set_psvi_status proxy 0; set_proxy_encoding proxy 0)
    set_proxy_node proxy node
    set_proxy_owner proxy null
    set_proxy_count proxy 0
    set_priv node proxy)

  unfoldable pub pmm_new_node : Ptr → Cmd Ptr
  pmm_new_node node = if node == null then pure null else do
    priv ← get_priv node
    if priv == null
        then (do proxy ← lib.malloc_proxy; init_proxy proxy node; pure proxy)
        else pure priv

  unfoldable pub pmm_new_fragment : Ptr → Cmd Ptr
  pmm_new_fragment doc = do
    frag ← lib.new_doc_fragment doc
    proxy ← pmm_new_node frag
    when (not (doc == null)) (do
      owner ← get_priv doc
      when (not (owner == null)) (pmm_refcnt_inc owner)
      set_proxy_owner proxy doc)
    pure proxy

  unfoldable pub free_detached_attr : Ptr → Cmd (Unit {0})
  free_detached_attr node = do
    parent ← get_parent node
    when (parent == null) (do set_ns node null; lib.free_prop node)

  unfoldable pub free_loose_dtd : Ptr → Cmd (Unit {0})
  free_loose_dtd node = do
    doc ← get_doc node
    if doc == null then lib.free_dtd node else (do
      ext ← get_ext_subset doc
      int ← get_int_subset doc
      when (not (ext == node) && not (int == node)) (do set_doc node null; lib.free_dtd node))

  unfoldable pub pmm_free_node : Ptr → Cmd (Unit {0})
  pmm_free_node node = do kind ← get_kind node; free_as (release_of kind)
    where
      free_as : Release → Cmd (Unit {0})
      free_as as_document = lib.free_doc node
      free_as as_attribute = free_detached_attr node
      free_as as_dtd = free_loose_dtd node
      free_as as_node = lib.free_node node

  -- The node of a proxy is let go: the result is the node, or NULL if it belongs to another proxy.
  unfoldable pub forget_node : Ptr → Cmd Ptr
  forget_node proxy = do
    node ← get_proxy_node proxy
    if node == null then pure null else (do
      priv ← get_priv node
      if not (priv == proxy) then pure null else (do set_priv node null; pure node))

  -- `if (libnode != NULL && libnode->parent == NULL) PmmFreeNode(libnode);`
  unfoldable pub free_if_root : Ptr → Cmd (Unit {0})
  free_if_root node =
      when (not (node == null))
        (do parent ← get_parent node; when (parent == null) (pmm_free_node node))

  unfoldable pub warn_below_zero : ℕ → Cmd (Unit {0})
  warn_below_zero c h =
      if is_negative c
      then done tt (record h { reports = refcnt_below_zero ∷ h.reports })
      else done tt h

  unfoldable pub pmm_refcnt_dec : ℕ → Ptr → Cmd ℕ
  pmm_refcnt_dec zero proxy = no_fuel
  pmm_refcnt_dec (suc k) proxy = if proxy == null then pure 0 else do
    c ← get_proxy_count proxy
    set_proxy_count proxy (int_dec c)
    warn_below_zero (int_dec c)
    when (not_positive (int_dec c)) (do
      libnode ← forget_node proxy
      set_proxy_node proxy null
      owner ← get_proxy_owner proxy
      ownerpo ← pmm_ownerpo proxy
      (if not (owner == null) && not (ownerpo == null)
          then (do
            set_proxy_owner proxy null
            free_if_root libnode
            pmm_refcnt_dec k ownerpo
            pure tt)
          else when (not (libnode == null)) (pmm_free_node libnode))
      lib.free_proxy proxy)
    pure c
