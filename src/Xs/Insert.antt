-- ===== src/Xs/Insert.antt =====
-- insertBefore, insertAfter, appendChild, replaceChild and replaceNode (LibXML.xs).
use perl_xml_lib_xml.Common.{
  ℕ, Bool, true, false, ◌||◌, not, Option, none, ◌∷◌, ◌==◌, if◌then◌else◌,
}
use perl_xml_lib_xml.Store.{
  Ptr, null, Str, NodeType, element, text, cdata_section, document_frag, not_supported,
  replacement_failed,
}
use perl_xml_lib_xml.Store.Kinds.{is_attribute, is_document}
use perl_xml_lib_xml.Store.Outcome.{Cmd, pure, croak, done, when, ◌>>=◌, ◌>>◌}
use perl_xml_lib_xml.Store.Fields.{get_kind, get_parent, get_priv}
use perl_xml_lib_xml.Libxml.{Libxml}
use perl_xml_lib_xml.Dom.Hierarchy.{dom_is_parent}
use perl_xml_lib_xml.Dom.Edit.{
  dom_append_child, dom_insert_before, dom_insert_after, dom_replace_child,
}
use perl_xml_lib_xml.Proxy.Sv.{pmm_node_to_sv, pmm_sv_node}
use perl_xml_lib_xml.Proxy.Owner.{pmm_fix_owner}
use perl_xml_lib_xml.Xs.Kept.{Sv, sv_proxy, owner_of, keep_dtd, lib_xml_reparent_removed_node}

-- The kinds that appendChild and replaceChild do not put under a document.
unfoldable pub not_under_document : NodeType → Bool
not_under_document element = true
not_under_document document_frag = true
not_under_document text = true
not_under_document cdata_section = true
not_under_document _ = false

unfoldable pub warn_not_supported : Cmd (Unit {0})
warn_not_supported h = done tt (record h { reports = not_supported ∷ h.reports })

-- The test at the head of appendChild and replaceChild.
unfoldable pub refused_under : Ptr → Ptr → Cmd Bool
refused_under self node = do
  kind ← get_kind self
  if not (is_document kind) then pure false else (do
    kind' ← get_kind node
    if not_under_document kind' then (do warn_not_supported; pure true) else pure false)

module _ (lib : Libxml) (xml : Option Str) (fuel : ℕ) where
  -- What insertBefore and insertAfter do with the node that the DOM operation gives.
  unfoldable pub wrap_inserted : Ptr → Ptr → Cmd Sv
  wrap_inserted self node = if node == null then pure none else do
    owner ← owner_of self
    sv ← pmm_node_to_sv lib node owner
    keep_dtd lib node self
    proxy ← get_priv node
    owner' ← owner_of self
    pmm_fix_owner lib fuel proxy owner'
    pure sv

  unfoldable pub xs_insert_before : Ptr → Ptr → Option Ptr → Cmd Sv
  xs_insert_before self node ref = do
    ref_node ← pmm_sv_node ref
    inserted ← dom_insert_before lib xml fuel self node ref_node
    wrap_inserted self inserted

  unfoldable pub xs_insert_after : Ptr → Ptr → Option Ptr → Cmd Sv
  xs_insert_after self node ref = do
    ref_node ← pmm_sv_node ref
    inserted ← dom_insert_after lib xml fuel self node ref_node
    wrap_inserted self inserted

  unfoldable pub xs_append_child : Ptr → Ptr → Cmd Sv
  xs_append_child self node = do
    refused ← refused_under self node
    if refused then pure none else (do
      appended ← dom_append_child lib xml fuel self node
      if appended == null then pure none else (do
        owner ← owner_of self
        sv ← pmm_node_to_sv lib node owner
        keep_dtd lib node self
        self_proxy ← get_priv self
        pmm_fix_owner lib fuel (sv_proxy sv) self_proxy
        pure sv))

  unfoldable pub xs_replace_child : Ptr → Ptr → Ptr → Cmd Sv
  xs_replace_child self node old =
      if (node == old) || (self == node)
      then (do owner ← owner_of node; pmm_node_to_sv lib node owner)
      else do
        refused ← refused_under self node
        if refused then pure none else (do
          replaced ← dom_replace_child lib xml fuel self node old
          if replaced == null then pure none else (do
            lib_xml_reparent_removed_node lib fuel replaced
            owner ← owner_of replaced
            sv ← pmm_node_to_sv lib replaced owner
            keep_dtd lib node node
            proxy ← get_priv node
            when (not (proxy == null))
                (do owner' ← owner_of self; pmm_fix_owner lib fuel proxy owner'; pure tt)
            pure sv))

  -- `self` is replaced in its parent, or as an attribute by libxml2.
  unfoldable pub replace_self : Ptr → Ptr → Cmd Ptr
  replace_self self node = do
    kind ← get_kind self
    if not (is_attribute kind)
        then (do parent ← get_parent self; dom_replace_child lib xml fuel parent node self)
        else lib.replace_node self node

  unfoldable pub xs_replace_node : Ptr → Ptr → Cmd Sv
  xs_replace_node self node = do
    above ← dom_is_parent fuel self node
    if above then pure none else do
      owner ← owner_of self
      replaced ← replace_self self node
      if replaced == null then croak replacement_failed else do
        lib_xml_reparent_removed_node lib fuel replaced
        owner' ← owner_of replaced
        sv ← pmm_node_to_sv lib replaced owner'
        keep_dtd lib node node
        proxy ← get_priv node
        when (not (proxy == null)) (do pmm_fix_owner lib fuel proxy owner; pure tt)
        pure sv
