-- ===== src/Dom/Hierarchy.antt =====
-- Which insertions the hierarchy of nodes allows (dom.c: domIsParent, domTestHierarchy,
-- domTestDocument). The integers 0 and 1 that the functions return are Booleans.
pub mod Ancestors
use perl_xml_lib_xml.Common.{ℕ, zero, suc, Bool, true, false, ◌||◌, not, ◌==◌, if◌then◌else◌}
use perl_xml_lib_xml.Store.{
  Ptr, null, NodeType, element, attribute, text, cdata_section, entity, entity_ref, document,
  namespace_decl,
}
use perl_xml_lib_xml.Store.Kinds.{is_attribute, is_document}
use perl_xml_lib_xml.Store.Outcome.{Cmd, pure, no_fuel, ◌>>=◌}
use perl_xml_lib_xml.Store.Fields.{get_kind, get_parent, get_children, get_doc}

-- `while (helper && helper != cur->doc) { if (helper == refNode) return 1; helper = helper->parent; }`
unfoldable pub is_parent_loop : ℕ → Ptr → Ptr → Ptr → Cmd Bool
is_parent_loop zero doc helper ref = no_fuel
is_parent_loop (suc k) doc helper ref =
    if (helper == null) || (helper == doc)
    then pure false
    else if helper == ref
    then pure true
    else do up ← get_parent helper; is_parent_loop k doc up ref

unfoldable pub dom_is_parent : ℕ → Ptr → Ptr → Cmd Bool
unfolding is_parent_loop
dom_is_parent fuel cur ref =
    if (cur == null) || (ref == null) then pure false else if ref == cur then pure true else do
      doc ← get_doc cur
      ref_doc ← get_doc ref
      first ← get_children ref
      up ← get_parent cur
      if not (doc == ref_doc) || (first == null) || (up == doc) || (up == null)
          then pure false
          else (do
            k ← get_kind ref
            if is_document k then pure true else is_parent_loop fuel doc cur ref)

-- The first switch of domTestHierarchy: what an attribute may hold.
unfoldable pub fits_attribute : NodeType → Bool
fits_attribute text = true
fits_attribute entity_ref = true
fits_attribute _ = false

unfoldable pub dom_test_hierarchy : ℕ → Ptr → Ptr → Cmd Bool
dom_test_hierarchy fuel cur ref = if (ref == null) || (cur == null) then pure false else do
  cur_kind ← get_kind cur
  ref_kind ← get_kind ref
  if is_attribute cur_kind
      then pure (fits_attribute ref_kind)
      else (if is_attribute ref_kind || is_document ref_kind
          then pure false
          else (do above ← dom_is_parent fuel cur ref; pure (not above)))

-- The switch of domTestDocument: what a document may not hold.
unfoldable pub refused_by_document : NodeType → Bool
refused_by_document attribute = true
refused_by_document element = true
refused_by_document entity = true
refused_by_document entity_ref = true
refused_by_document text = true
refused_by_document cdata_section = true
refused_by_document namespace_decl = true
refused_by_document _ = false

unfoldable pub dom_test_document : Ptr → Ptr → Cmd Bool
dom_test_document cur ref = do
  cur_kind ← get_kind cur
  if is_document cur_kind
      then (do ref_kind ← get_kind ref; pure (not (refused_by_document ref_kind)))
      else pure true

-- `domTestHierarchy(self, node) && domTestDocument(self, node)`
unfoldable pub may_hold : ℕ → Ptr → Ptr → Cmd Bool
may_hold fuel self node = do
  fits ← dom_test_hierarchy fuel self node
  if fits then dom_test_document self node else pure false
