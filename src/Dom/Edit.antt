-- ===== src/Dom/Edit.antt =====
-- The DOM operations that move nodes (dom.c: domAppendChild, domRemoveChild, domReplaceChild,
-- domInsertBefore, domInsertAfter, domReplaceNode). One fuel serves all loops of an operation.
pub mod Append
pub mod Refuse
pub mod OnlyChild
pub mod Inserted
pub mod Before
pub mod Replace
use perl_xml_lib_xml.Common.{
  ℕ, zero, suc, Bool, true, false, ◌&&◌, ◌||◌, not, Option, ◌∷◌, ◌==◌, if◌then◌else◌,
}
use perl_xml_lib_xml.Store.{Ptr, null, Str, hierarchy_request_err, not_found_err}
use perl_xml_lib_xml.Store.Kinds.{
  is_fragment, is_element, is_attribute, is_entity_ref, is_document, is_namespace_decl,
}
use perl_xml_lib_xml.Store.Outcome.{Cmd, pure, no_fuel, croak, done, when, ◌>>=◌, ◌>>◌}
use perl_xml_lib_xml.Store.Fields.{
  get_kind, get_parent, set_parent, get_next, set_next, get_prev, set_prev, get_children,
  set_children, get_last, set_last, get_doc, get_priv,
}
use perl_xml_lib_xml.Libxml.{Libxml}
use perl_xml_lib_xml.Dom.Reconcile.{dom_reconcile_ns}
use perl_xml_lib_xml.Dom.Links.{adopt, dom_add_node_to_list, dom_unlink_node, dom_import_node}
use perl_xml_lib_xml.Dom.Hierarchy.{dom_is_parent, may_hold}

-- The part of domAppendChild that links `node` under `self`; the result is `fragment`.
unfoldable pub place_child : ℕ → Ptr → Ptr → Cmd Ptr
place_child fuel self node = do
  first ← get_children self
  k ← get_kind node
  if not (first == null)
      then (do
        fragment ← if is_fragment k then get_children node else pure null
        last ← get_last self
        dom_add_node_to_list fuel node last null
        pure fragment)
      else (if is_fragment k
          then (do
            fragment ← get_children node
            set_children self fragment
            adopt fuel fragment self
            last ← get_last node
            set_last self last
            set_children node null
            set_last node null
            pure fragment)
          else (do set_children self node; set_last self node; set_parent node self; pure null))

-- `xmlGenericError(xmlGenericErrorContext, "NOT_FOUND_ERR\n")`
unfoldable pub report_not_found : Cmd (Unit {0})
report_not_found h = done tt (record h { reports = not_found_err ∷ h.reports })

module _ (lib : Libxml) (xml_xml_namespace : Option Str) where
  -- `while (fragment && fragment != stop) { domReconcileNs(fragment); fragment = fragment->next; }`
  unfoldable pub reconcile_until : ℕ → Ptr → Ptr → Cmd (Unit {0})
  reconcile_until zero fragment stop = no_fuel
  reconcile_until (suc k) fragment stop =
      if (fragment == null) || (fragment == stop) then pure tt else do
        dom_reconcile_ns lib xml_xml_namespace (suc k) fragment
        n ← get_next fragment
        reconcile_until k n stop

  -- What the operations do last: reconcile the nodes of the fragment up to `stop`, or the node.
  unfoldable pub reconcile_moved : ℕ → Ptr → Ptr → Ptr → Cmd (Unit {0})
  reconcile_moved fuel fragment stop node =
      if not (fragment == null) then reconcile_until fuel fragment stop else do
        k ← get_kind node
        when (not (is_entity_ref k)) (dom_reconcile_ns lib xml_xml_namespace fuel node)

  -- `if (node->doc == self->doc) domUnlinkNode(node); else node = domImportNode(self->doc, node, 1, r);`
  unfoldable pub bring : ℕ → Ptr → Ptr → Bool → Cmd Ptr
  bring fuel self node reconcile = do
    from ← get_doc node
    to ← get_doc self
    if from == to
        then (do dom_unlink_node lib node; pure node)
        else dom_import_node lib xml_xml_namespace fuel to node true reconcile

  unfoldable pub dom_append_child : ℕ → Ptr → Ptr → Cmd Ptr
  dom_append_child fuel self node = if self == null then pure node else do
    fits ← may_hold fuel self node
    if not fits then croak hierarchy_request_err else do
      node' ← bring fuel self node false
      fragment ← place_child fuel self node'
      reconcile_moved fuel fragment null node'
      pure (if not (fragment == null) then fragment else node')

  unfoldable pub dom_remove_child : ℕ → Ptr → Ptr → Cmd Ptr
  dom_remove_child fuel self old = if (self == null) || (old == null) then pure null else do
    k ← get_kind old
    if is_attribute k || is_namespace_decl k then pure null else do
      parent ← get_parent old
      if not (self == parent) then pure null else do
        dom_unlink_node lib old
        k' ← get_kind old
        when (is_element k') (dom_reconcile_ns lib xml_xml_namespace fuel old)
        pure old

  -- The three ways in which domReplaceChild puts the new node in the place of the old one. In none of
  -- them `fragment` becomes other than NULL.
  unfoldable pub swap_child : ℕ → Ptr → Ptr → Ptr → Cmd (Unit {0})
  swap_child fuel self node old = do
    first ← get_children self
    last ← get_last self
    k ← get_kind node
    inner ← get_children node
    if (old == first) && (old == last)
        then (do dom_remove_child fuel self old; dom_append_child fuel self node; pure tt)
        else (if is_fragment k && (inner == null)
            then (do dom_remove_child fuel self old; pure tt)
            else (do
              prev ← get_prev old
              next ← get_next old
              dom_add_node_to_list fuel node prev next
              set_prev old null
              set_next old null
              set_parent old null))

  unfoldable pub dom_replace_child : ℕ → Ptr → Ptr → Ptr → Cmd Ptr
  dom_replace_child fuel self node old =
      if (self == null) || (node == old)
      then pure null
      else if node == null
      then dom_remove_child fuel self old
      else if old == null
      then (do dom_append_child fuel self node; pure old)
      else do
        fits ← may_hold fuel self node
        if not fits then croak hierarchy_request_err else do
          node' ← bring fuel self node true
          swap_child fuel self node' old
          reconcile_moved fuel null null node'
          pure old

  -- What domInsertBefore checks about a `refChild` that is not NULL.
  unfoldable pub bad_reference : Ptr → Ptr → Ptr → Cmd Bool
  bad_reference self node ref = if ref == null then pure false else do
    parent ← get_parent ref
    k ← get_kind node
    inner ← get_children node
    pure (not (parent == self) || (is_fragment k && (inner == null)))

  -- The rest of domInsertBefore, for a `self` that has children.
  unfoldable pub insert_before : ℕ → Ptr → Ptr → Ptr → Cmd Ptr
  insert_before fuel self node ref = do
    fits ← may_hold fuel self node
    if not fits then croak hierarchy_request_err else do
      node' ← bring fuel self node false
      k ← get_kind node'
      fragment ← if is_fragment k then get_children node' else pure null
      leader ← if ref == null then get_last self else get_prev ref
      dom_add_node_to_list fuel node' leader ref
      reconcile_moved fuel fragment ref node'
      pure (if not (fragment == null) then fragment else node')

  unfoldable pub dom_insert_before : ℕ → Ptr → Ptr → Ptr → Cmd Ptr
  dom_insert_before fuel self node ref =
      if ref == node then pure node else if (self == null) || (node == null) then pure null else do
        bad ← bad_reference self node ref
        if bad then (do report_not_found; pure null) else do
          first ← get_children self
          if first == null
              then dom_append_child fuel self node
              else insert_before fuel self node ref

  unfoldable pub dom_insert_after : ℕ → Ptr → Ptr → Ptr → Cmd Ptr
  dom_insert_after fuel self node ref =
      if ref == null
      then dom_insert_before fuel self node null
      else do next ← get_next ref; dom_insert_before fuel self node next

  -- The test at the head of domReplaceNode.
  unfoldable pub may_not_replace : ℕ → Ptr → Ptr → Cmd Bool
  may_not_replace fuel old node = do
    old_kind ← get_kind old
    kind ← get_kind node
    if is_attribute old_kind || is_attribute kind || is_document kind
        then pure true
        else dom_is_parent fuel node old

  -- The new node goes where the old one stood, or under `parent` if that was its only child.
  unfoldable pub fill_place : ℕ → Ptr → Ptr → Ptr → Ptr → Cmd (Unit {0})
  fill_place fuel parent node prev next =
      if (prev == null) && (next == null)
      then (do dom_append_child fuel parent node; pure tt)
      else (do dom_add_node_to_list fuel node prev next; pure tt)

  unfoldable pub dom_replace_node : ℕ → Ptr → Ptr → Cmd Ptr
  dom_replace_node fuel old node = if (old == null) || (node == null) then pure null else do
    refused ← may_not_replace fuel old node
    if refused then croak hierarchy_request_err else do
      parent ← get_parent old
      prev ← get_prev old
      next ← get_next old
      priv ← get_priv old
      if priv == null then lib.unlink_node old else dom_unlink_node lib old
      k ← get_kind node
      fragment ← if is_fragment k then get_children node else pure null
      fill_place fuel parent node prev next
      reconcile_moved fuel fragment next node
      pure old
