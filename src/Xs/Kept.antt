-- ===== src/Xs/Kept.antt =====
-- What the methods that move nodes share (LibXML.xs: LibXML_set_int_subset and
-- LibXML_reparent_removed_node, and how they find an owner).
use perl_xml_lib_xml.Common.{ℕ, ◌&&◌, not, Option, none, some, ◌==◌, if◌then◌else◌}
use perl_xml_lib_xml.Store.{Ptr, null}
use perl_xml_lib_xml.Store.Kinds.{is_attribute, is_dtd}
use perl_xml_lib_xml.Store.Outcome.{Cmd, pure, when, ◌>>=◌, ◌>>◌}
use perl_xml_lib_xml.Store.Fields.{
  get_kind, get_doc, get_priv, get_int_subset, set_int_subset, get_proxy_node,
}
use perl_xml_lib_xml.Libxml.{Libxml}
use perl_xml_lib_xml.Proxy.Node.{PerlClass, pmm_ownerpo, pmm_new_fragment}
use perl_xml_lib_xml.Proxy.Owner.{pmm_fix_owner}

-- A reference to a proxy, blessed into a class.
abbrev pub Sv : Type 0
Sv = Option (PerlClass × Ptr)

-- SvPROXYNODE
abbrev pub sv_proxy : Sv → Ptr
sv_proxy none = null
sv_proxy (some (c, proxy)) = proxy

-- PmmOWNERPO(PmmPROXYNODE(node))
unfoldable pub owner_of : Ptr → Cmd Ptr
owner_of node = do proxy ← get_priv node; pmm_ownerpo proxy

module _ (lib : Libxml) where
  unfoldable pub lib_xml_set_int_subset : Ptr → Ptr → Cmd (Unit {0})
  lib_xml_set_int_subset doc subset = do
    old ← get_int_subset doc
    if old == subset then pure tt else (do
      when (not (old == null))
          (do lib.unlink_node old; proxy ← get_priv old; when (proxy == null) (lib.free_dtd old))
      set_int_subset doc subset)

  -- `if (node->type == XML_DTD_NODE) LibXML_set_int_subset(of->doc, node);`
  unfoldable pub keep_dtd : Ptr → Ptr → Cmd (Unit {0})
  keep_dtd node of = do
    kind ← get_kind node
    when (is_dtd kind) (do doc ← get_doc of; lib_xml_set_int_subset doc node)

module _ (lib : Libxml) (fuel : ℕ) where
  unfoldable pub lib_xml_reparent_removed_node : Ptr → Cmd (Unit {0})
  lib_xml_reparent_removed_node node = do
    kind ← get_kind node
    when (not (is_attribute kind) && not (is_dtd kind)) (do
      doc ← get_doc node
      docfrag ← pmm_new_fragment lib doc
      fragment ← get_proxy_node docfrag
      lib.add_child fragment node
      proxy ← get_priv node
      pmm_fix_owner lib fuel proxy docfrag
      pure tt)
