-- ===== src/Dom/Traverse.antt =====
-- Walks over a subtree (dom.c: domClearPSVI and domClearPSVIInList, domNodeNormalize and
-- domNodeNormalizeList, domRemoveNsRefs). Fuel bounds the depth and the length of the walks.
pub mod NsRefs
use perl_xml_lib_xml.Common.{ℕ, zero, suc, Bool, true, false, ◌&&◌, ◌||◌, not, ◌==◌, if◌then◌else◌}
use perl_xml_lib_xml.Store.{Ptr, null}
use perl_xml_lib_xml.Store.Kinds.{is_element, is_attribute, is_document, is_text, is_entity_ref}
use perl_xml_lib_xml.Store.Outcome.{Cmd, pure, no_fuel, when, ◌>>=◌, ◌>>◌}
use perl_xml_lib_xml.Store.Fields.{
  get_kind, get_children, get_parent, get_next, get_ns, set_ns, get_properties, get_content,
  get_priv, set_psvi,
}
use perl_xml_lib_xml.Libxml.{Libxml}

unfoldable mutual
  pub dom_clear_psvi : ℕ → Ptr → Cmd (Unit {0})
  dom_clear_psvi zero tree = no_fuel
  dom_clear_psvi (suc k) tree = if tree == null then pure tt else do
    kind ← get_kind tree
    when (is_element kind || is_document kind) (set_psvi tree null)
    when (is_element kind) (do prop ← get_properties tree; clear_psvi_attrs k tree prop)
    first ← get_children tree
    dom_clear_psvi_in_list k first

  -- The loop over the attributes, with its test of the element's own kind.
  pub clear_psvi_attrs : ℕ → Ptr → Ptr → Cmd (Unit {0})
  clear_psvi_attrs zero tree prop = no_fuel
  clear_psvi_attrs (suc k) tree prop = if prop == null then pure tt else do
    kind ← get_kind tree
    when (is_attribute kind) (set_psvi prop null)
    first ← get_children prop
    dom_clear_psvi_in_list k first
    n ← get_next prop
    clear_psvi_attrs k tree n

  pub dom_clear_psvi_in_list : ℕ → Ptr → Cmd (Unit {0})
  dom_clear_psvi_in_list zero cur = no_fuel
  dom_clear_psvi_in_list (suc k) cur =
      if cur == null
      then pure tt
      else do dom_clear_psvi k cur; n ← get_next cur; dom_clear_psvi_in_list k n

module _ (lib : Libxml) where
  -- `while (node->next && node->next->type == XML_TEXT_NODE) { … }`
  unfoldable pub merge_texts : ℕ → Ptr → Cmd (Unit {0})
  merge_texts zero node = no_fuel
  merge_texts (suc k) node = do
    n ← get_next node
    if n == null then pure tt else (do
      kind ← get_kind n
      if not (is_text kind) then pure tt else (do
        content ← get_content n
        lib.node_add_content node content
        lib.unlink_node n
        priv ← get_priv n
        when (priv == null) (lib.free_node n)
        merge_texts k node))

  unfoldable mutual
    pub dom_node_normalize : ℕ → Ptr → Cmd Bool
    dom_node_normalize zero node = no_fuel
    dom_node_normalize (suc k) node = if node == null then pure false else do
      kind ← get_kind node
      if is_text kind then (do merge_texts (suc k) node; pure true) else (do
        when (is_element kind)
            (do attrs ← get_properties node; dom_node_normalize_list k attrs; pure tt)
        first ← get_children node
        if is_element kind || is_attribute kind || is_document kind
            then dom_node_normalize_list k first
            else pure true)

    pub dom_node_normalize_list : ℕ → Ptr → Cmd Bool
    dom_node_normalize_list zero list = no_fuel
    dom_node_normalize_list (suc k) list = if list == null then pure true else do
      fine ← dom_node_normalize k list
      if not fine then pure false else (do n ← get_next list; dom_node_normalize_list k n)

-- `if (node->ns == ns) node->ns = NULL;`
unfoldable pub drop_ns : Ptr → Ptr → Cmd (Unit {0})
drop_ns node ns = do own ← get_ns node; when (own == ns) (set_ns node null)

unfoldable pub drop_ns_attrs : ℕ → Ptr → Ptr → Cmd (Unit {0})
drop_ns_attrs zero attr ns = no_fuel
drop_ns_attrs (suc k) attr ns =
    if attr == null then pure tt else do drop_ns attr ns; n ← get_next attr; drop_ns_attrs k n ns

-- The inner loop: up to the next sibling of an ancestor. The result is where the walk goes on, NULL at
-- its end.
unfoldable pub climb : ℕ → Ptr → Ptr → Cmd Ptr
climb zero tree node = no_fuel
climb (suc k) tree node = if node == tree then pure null else do
  up ← get_parent node
  let node' = if not (up == null) then up else node
  next ← get_next node'
  up' ← get_parent node'
  if not (node' == tree) && not (next == null)
      then pure (if next == tree then null else next)
      else (if up' == null then pure null else climb k tree node')

-- The step of the walk from `node`.
unfoldable pub walk_on : ℕ → Ptr → Ptr → Cmd Ptr
walk_on fuel tree node = do
  first ← get_children node
  kind ← get_kind node
  next ← get_next node
  if not (first == null) && not (is_entity_ref kind)
      then pure first
      else (if not (node == tree) && not (next == null)
          then pure next
          else (if not (node == tree) then climb fuel tree node else pure null))

unfoldable pub remove_ns_refs_loop : ℕ → Ptr → Ptr → Ptr → Cmd (Unit {0})
remove_ns_refs_loop zero tree node ns = no_fuel
remove_ns_refs_loop (suc k) tree node ns = if node == null then pure tt else do
  drop_ns node ns
  attr ← get_properties node
  drop_ns_attrs (suc k) attr ns
  n ← walk_on (suc k) tree node
  remove_ns_refs_loop k tree n ns

unfoldable pub dom_remove_ns_refs : ℕ → Ptr → Ptr → Cmd Bool
dom_remove_ns_refs fuel tree ns = if tree == null then pure false else do
  kind ← get_kind tree
  if not (is_element kind)
      then pure false
      else (do remove_ns_refs_loop fuel tree tree ns; pure true)
