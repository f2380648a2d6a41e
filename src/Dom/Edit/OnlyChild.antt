-- ===== src/Dom/Edit/OnlyChild.antt =====
-- domInsertBefore without a reference node, on the only child of its parent.
use perl_xml_lib_xml.Common.{
  ℕ, suc, ◌+◌, ◌*◌, ◌<◌, ◌≡◌, refl, true, false, Option, List, [], ◌∷◌, ◌++◌, arith, ◌==◌, length,
}
use perl_xml_lib_xml.Store.{Ptr, null, Str, Store, valid}
use perl_xml_lib_xml.Store.Kinds.{is_fragment, is_dtd}
use perl_xml_lib_xml.Store.Outcome.{done}
use perl_xml_lib_xml.Store.Returns.{Returns}
use perl_xml_lib_xml.Libxml.{Libxml}
use perl_xml_lib_xml.Dom.Links.{dom_add_node_to_list}
use perl_xml_lib_xml.Dom.Links.Chains.{IsChildList, NoneIn, valid-ne_null}
use perl_xml_lib_xml.Dom.Links.Unlink.{unlinked, IsDetached, unlinked-facts}
use perl_xml_lib_xml.Dom.Reconcile.Plain.{Forest, weight, nodes_of, IsPlainNode, IsPlainNode-moved}
use perl_xml_lib_xml.Dom.Hierarchy.{may_hold}
use perl_xml_lib_xml.Dom.Edit.{bad_reference, insert_before, dom_insert_before}
use perl_xml_lib_xml.Dom.Edit.Append.{bring-unlinked, reconcile_moved-plain}

add_nowhere :
    (fuel : ℕ) (h : Store) (node : Ptr) → dom_add_node_to_list fuel node null null h ≡ done false h
unfolding dom_add_node_to_list
add_nowhere fuel h node = ground arith

-- Let `node` be the only child of `self`, allowed there, in the same document, neither a fragment nor a
-- DTD, and without namespaces in its subtree. Then domInsertBefore(self, node, NULL), which is meant to
-- make `node` the last child of `self`, returns `node` but leaves `self` without children and `node`
-- without a parent.
pub dom_insert_before-only_child :
    (lib : Libxml) (xml : Option Str) (fuel : ℕ) (h : Store) (self node : Ptr) (attrs : List Ptr)
    (kids : Forest)
    → IsChildList h self (node ∷ [])
    → valid h.live self ≡ true
    → h.doc node ≡ h.doc self
    → may_hold fuel self node h ≡ done true h
    → is_dtd (h.kind node) ≡ false
    → is_fragment (h.kind node) ≡ false
    → IsPlainNode h node attrs kids
    → NoneIn (attrs ++ nodes_of kids) (self ∷ node ∷ [])
    → (node == self) ≡ false
    → 2 * suc (length attrs + weight kids) < fuel
    → Returns
        (dom_insert_before lib xml fuel self node null h)
        (λ r g. (r ≡ node) × IsChildList g self [] × IsDetached node g)
unfolding dom_insert_before insert_before bad_reference
dom_insert_before-only_child lib xml fuel h self node attrs kids is vself same_doc allowed kd kf
      plain apart ne enough =
    let g = unlinked h node in
    let freed = unlinked-facts h self node [] [] is in
    let plain' =
      IsPlainNode-moved h g (self ∷ []) (node ∷ []) node attrs kids freed.2 apart (ground arith)
        plain in
    let nn = valid-ne_null h.live node plain.0 in
    let differ : (null == node) ≡ false = ground arith in
    rw
      (
        differ,
        valid-ne_null h.live self vself,
        nn,
        vself,
        is.first,
        nn,
        allowed,
        bring-unlinked lib xml fuel h self self node [] [] false is vself vself same_doc kd,
        plain.0,
        kf,
        vself,
        freed.0.final,
        add_nowhere fuel g node,
        reconcile_moved-plain lib xml fuel g null node attrs kids plain' enough,
      )
      (refl, freed.0, freed.1)
