-- ===== src/Dom/Links.antt =====
-- Linking and unlinking siblings (dom.c: domAddNodeToList, domUnlinkNode, domImportNode).
pub mod Chains
pub mod Unlink
pub mod Splice
pub mod Insert
pub mod Swap
pub mod Fragment
pub mod Frames
use perl_xml_lib_xml.Common.{
  ℕ, zero, suc, Bool, true, false, ◌&&◌, ◌||◌, not, Option, ◌==◌, if◌then◌else◌,
}
use perl_xml_lib_xml.Store.{Ptr, null, Str}
use perl_xml_lib_xml.Store.Kinds.{is_fragment, is_dtd, is_entity_ref}
use perl_xml_lib_xml.Store.Outcome.{Cmd, pure, no_fuel, when, ◌>>=◌, ◌>>◌}
use perl_xml_lib_xml.Store.Fields.{
  get_kind, get_parent, set_parent, get_next, set_next, get_prev, set_prev, get_children,
  set_children, get_last, set_last, get_doc, get_priv, get_psvi_status, set_psvi_status,
}
use perl_xml_lib_xml.Libxml.{Libxml}
use perl_xml_lib_xml.Dom.Reconcile.{dom_reconcile_ns}

-- `while (c1) { c1->parent = p; c1 = c1->next; }`
unfoldable pub adopt : ℕ → Ptr → Ptr → Cmd (Unit {0})
adopt zero c p = no_fuel
adopt (suc k) c p = if c == null then pure tt else do set_parent c p; n ← get_next c; adopt k n p

-- `if (leader) { leader->next = c1; c1->prev = leader; } else if (p) { p->children = c1; }`
unfoldable pub link_front : Ptr → Ptr → Ptr → Cmd (Unit {0})
link_front leader c1 p =
    if not (leader == null)
    then (do set_next leader c1; set_prev c1 leader)
    else when (not (p == null)) (set_children p c1)

-- `if (followup) { followup->prev = c2; c2->next = followup; } else if (p) { p->last = c2; }`
unfoldable pub link_back : Ptr → Ptr → Ptr → Cmd (Unit {0})
link_back followup c2 p =
    if not (followup == null)
    then (do set_prev followup c2; set_next c2 followup)
    else when (not (p == null)) (set_last p c2)

-- The first and the last node to link: those of a fragment, which loses them, or the node itself.
unfoldable pub take_nodes : ℕ → Ptr → Ptr → Cmd (Ptr × Ptr)
unfolding adopt
take_nodes fuel cur p = do
  k ← get_kind cur
  if is_fragment k
      then (do
        c ← get_children cur
        adopt fuel c p
        c1 ← get_children cur
        c2 ← get_last cur
        set_children cur null
        set_last cur null
        pure (c1, c2))
      else (do set_parent cur p; pure (cur, cur))

unfoldable pub dom_add_node_to_list : ℕ → Ptr → Ptr → Ptr → Cmd Bool
unfolding take_nodes link_front link_back
dom_add_node_to_list fuel cur leader followup =
    if (cur == null) || ((leader == null) && (followup == null)) then pure false else do
      p ← if not (leader == null) then get_parent leader else get_parent followup
      (c1, c2) ← take_nodes fuel cur p
      when (not (c1 == null) && not (c2 == null) && not (c1 == leader))
          (do link_front leader c1 p; link_back followup c2 p)
      pure true

-- The three writes that take a node out of its neighbours.
unfoldable pub unlink_siblings : Ptr → Cmd (Unit {0})
unlink_siblings node = do
  prev ← get_prev node
  next ← get_next node
  when (not (prev == null)) (set_next prev next)
  when (not (next == null)) (set_prev next prev)

unfoldable pub unlink_parent : Ptr → Cmd (Unit {0})
unlink_parent node = do
  parent ← get_parent node
  when (not (parent == null)) (do
    last ← get_last parent
    when (node == last) (do prev ← get_prev node; set_last parent prev)
    first ← get_children parent
    when (node == first) (do next ← get_next node; set_children parent next))

unfoldable pub is_detached : Ptr → Cmd Bool
is_detached node = do
  prev ← get_prev node
  next ← get_next node
  parent ← get_parent node
  pure ((prev == null) && (next == null) && (parent == null))

module _ (lib : Libxml) where
  unfoldable pub dom_unlink_node : Ptr → Cmd (Unit {0})
  dom_unlink_node node = if node == null then pure tt else do
    alone ← is_detached node
    if alone then pure tt else do
      k ← get_kind node
      if is_dtd k then lib.unlink_node node else do
        unlink_siblings node
        unlink_parent node
        set_prev node null
        set_next node null
        set_parent node null

-- PmmIsPSVITainted(doc) of perl-libxml-mm.h; Pmm_PSVI_TAINTED is 1.
unfoldable pub pmm_is_psvi_tainted : Ptr → Cmd Bool
pmm_is_psvi_tainted doc = if doc == null then pure false else do
  proxy ← get_priv doc
  if proxy == null then pure false else do status ← get_psvi_status proxy; pure (status == 1)

-- PmmInvalidatePSVI(doc)
unfoldable pub pmm_invalidate_psvi : Ptr → Cmd (Unit {0})
pmm_invalidate_psvi doc =
    when (not (doc == null))
      (do proxy ← get_priv doc; when (not (proxy == null)) (set_psvi_status proxy 1))

module _ (lib : Libxml) (xml_xml_namespace : Option Str) where
  -- `move` is 1 where the node itself goes to the other document, 0 where a copy does.
  unfoldable pub dom_import_node : ℕ → Ptr → Ptr → Bool → Bool → Cmd Ptr
  unfolding pmm_is_psvi_tainted pmm_invalidate_psvi
  dom_import_node fuel doc node move reconcile = do
    result ← if move then (do dom_unlink_node lib node; pure node) else (do
      k ← get_kind node
      if is_dtd k then lib.copy_dtd node else lib.doc_copy_node node doc)
    when (not (node == null)) (do
      old ← get_doc node
      when (not (old == doc)) (do
        tainted ← pmm_is_psvi_tainted old
        when tainted (pmm_invalidate_psvi doc)
        lib.set_tree_doc result doc))
    when (reconcile && not (doc == null) && not (result == null)) (do
      k ← get_kind result
      when (not (is_entity_ref k)) (dom_reconcile_ns lib xml_xml_namespace fuel result))
    pure result
