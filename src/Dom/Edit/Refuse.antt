-- ===== src/Dom/Edit/Refuse.antt =====
-- The operations that the hierarchy of nodes forbids.
use perl_xml_lib_xml.Common.{
  ℕ, suc, ◌<◌, ◌≡◌, true, false, Option, List, ◌∷◌, arith, ◌==◌, length, mem,
}
use perl_xml_lib_xml.Store.{Ptr, null, Str, Store, valid, hierarchy_request_err}
use perl_xml_lib_xml.Store.Kinds.{is_attribute}
use perl_xml_lib_xml.Store.Outcome.{done, croaked}
use perl_xml_lib_xml.Libxml.{Libxml}
use perl_xml_lib_xml.Dom.Links.Chains.{valid-ne_null}
use perl_xml_lib_xml.Dom.Hierarchy.{may_hold}
use perl_xml_lib_xml.Dom.Hierarchy.Ancestors.{HasAncestors, dom_test_hierarchy-mem}
use perl_xml_lib_xml.Dom.Edit.{dom_append_child, dom_replace_child, insert_before}

may_hold-ancestor :
    (fuel : ℕ) (h : Store) (self node : Ptr) (above : List Ptr)
    → HasAncestors h self above
    → valid h.live node ≡ true
    → (node == h.doc self) ≡ false
    → suc (length above) < fuel
    → is_attribute (h.kind self) ≡ false
    → mem node (self ∷ above) ≡ true
    → may_hold fuel self node h ≡ done false h
unfolding may_hold
may_hold-ancestor fuel h self node above is vn ne enough ka i =
    let e = dom_test_hierarchy-mem fuel h self node above is vn ne enough in
    rw (e, ka, i) (ground arith)

-- Let `node` be `self`, which is no attribute, or one of its ancestors other than the document, the
-- ancestors in one document and with children, and the fuel more than there are ancestors plus one. Then domAppendChild(self, node), the insertion of domInsertBefore
-- before any reference, and domReplaceChild(self, node, old) for any other node `old` raise
-- HIERARCHY_REQUEST_ERR and leave the store as it was.
pub dom_append_child-ancestor :
    (lib : Libxml) (xml : Option Str) (fuel : ℕ) (h : Store) (self node ref old : Ptr)
    (above : List Ptr)
    → HasAncestors h self above
    → valid h.live node ≡ true
    → (node == h.doc self) ≡ false
    → suc (length above) < fuel
    → is_attribute (h.kind self) ≡ false
    → mem node (self ∷ above) ≡ true
    → (node == old) ≡ false
    → (old == null) ≡ false
    → (dom_append_child lib xml fuel self node h ≡ croaked hierarchy_request_err h)
      × (insert_before lib xml fuel self node ref h ≡ croaked hierarchy_request_err h)
      × (dom_replace_child lib xml fuel self node old h ≡ croaked hierarchy_request_err h)
unfolding dom_append_child insert_before dom_replace_child
dom_append_child-ancestor lib xml fuel h self node ref old above is vn ne enough ka i other
      some_old =
    let no = may_hold-ancestor fuel h self node above is vn ne enough ka i in
    let ns = valid-ne_null h.live self is.path.1 in
    let nn = valid-ne_null h.live node vn in (rw (ns, no), rw no, rw (ns, other, nn, some_old, no))
