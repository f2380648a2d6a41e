-- ===== src/Proxy/Owner.antt =====
-- Keeping owners right after nodes have moved (perl-libxml-mm.c: PmmFixOwner, PmmFixOwnerList,
-- PmmFixOwnerNode). Fuel bounds the depth and the length of the walk.
pub mod Moved
pub mod Walk
pub mod Same
pub mod Fixed
use perl_xml_lib_xml.Common.{ℕ, zero, suc, Bool, true, false, ◌&&◌, ◌||◌, not, ◌==◌, if◌then◌else◌}
use perl_xml_lib_xml.Store.{
  Ptr, null, NodeType, entity_decl, attribute_decl, namespace_decl, element_decl,
}
use perl_xml_lib_xml.Store.Kinds.{is_attribute, is_dtd, is_document}
use perl_xml_lib_xml.Store.Outcome.{Cmd, pure, no_fuel, when, ◌>>=◌, ◌>>◌}
use perl_xml_lib_xml.Store.Fields.{
  get_kind, get_children, get_parent, get_next, get_properties, get_priv, get_proxy_node,
  get_proxy_owner, set_proxy_owner,
}
use perl_xml_lib_xml.Libxml.{Libxml}
use perl_xml_lib_xml.Proxy.Node.{pmm_refcnt_inc, pmm_refcnt_dec, pmm_ownerpo}

-- The kinds that PmmFixOwnerList skips; PmmFixOwner skips documents too.
unfoldable pub has_no_owner : NodeType → Bool
has_no_owner entity_decl = true
has_no_owner attribute_decl = true
has_no_owner namespace_decl = true
has_no_owner element_decl = true
has_no_owner _ = false

module _ (lib : Libxml) where
  -- The node gets the new owner, and the old owner's proxy loses a reference.
  unfoldable pub change_owner : ℕ → Ptr → Ptr → Ptr → Cmd (Unit {0})
  change_owner fuel proxy old parent = do
    if not (parent == null) && not (parent == proxy)
        then (do o ← get_proxy_node parent; set_proxy_owner proxy o; pmm_refcnt_inc parent)
        else set_proxy_owner proxy null
    when (not (old == null) && not (old == proxy)) (do pmm_refcnt_dec lib fuel old; pure tt)

  unfoldable mutual
    pub pmm_fix_owner : ℕ → Ptr → Ptr → Cmd Bool
    pmm_fix_owner zero proxy parent = no_fuel
    pmm_fix_owner (suc k) proxy parent = if proxy == null then pure false else do
      first_node ← get_proxy_node proxy
      first_kind ← get_kind first_node
      if has_no_owner first_kind || is_document first_kind then pure false else (do
        owner ← get_proxy_owner proxy
        old ← if not (owner == null) then pmm_ownerpo proxy else pure null
        if old == parent then pure true else (do
          change_owner (suc k) proxy old parent
          node ← get_proxy_node proxy
          kind ← get_kind node
          when (not (is_attribute kind) && not (is_dtd kind))
              (do attrs ← get_properties node; pmm_fix_owner_list k attrs parent)
          up ← get_parent node
          first ← get_children node
          pmm_fix_owner_list k first (if (parent == null) || (up == null) then proxy else parent)
          pure true))

    pub pmm_fix_owner_list : ℕ → Ptr → Ptr → Cmd (Unit {0})
    pmm_fix_owner_list zero list parent = no_fuel
    pmm_fix_owner_list (suc k) list parent = if list == null then pure tt else do
      kind ← get_kind list
      when (not (has_no_owner kind)) (do
        priv ← get_priv list
        if not (priv == null) then (do pmm_fix_owner k priv parent; pure tt) else (do
          when (not (is_attribute kind))
              (do attrs ← get_properties list; pmm_fix_owner_list k attrs parent)
          first ← get_children list
          pmm_fix_owner_list k first parent))
      n ← get_next list
      pmm_fix_owner_list k n parent

  unfoldable pub pmm_fix_owner_node : ℕ → Ptr → Ptr → Cmd (Unit {0})
  pmm_fix_owner_node fuel node parent = when (not (node == null) && not (parent == null)) (do
    priv ← get_priv node
    if not (priv == null)
        then (do pmm_fix_owner fuel priv parent; pure tt)
        else (do first ← get_children node; pmm_fix_owner_list fuel first parent))
