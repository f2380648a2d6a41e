-- ===== src/Examples/Edits.antt =====
-- The properties of the DOM operations, at a small document.
use perl_xml_lib_xml.Common.{true, none, [], ◌∷◌, ◌≡◌, refl, arith}
use perl_xml_lib_xml.Store.{null, update, valid, hierarchy_request_err}
use perl_xml_lib_xml.Store.Kinds.{is_element, is_attribute, is_fragment, is_dtd, is_document}
use perl_xml_lib_xml.Store.Outcome.{done, croaked}
use perl_xml_lib_xml.Store.Returns.{Returns}
use perl_xml_lib_xml.Dom.Links.{dom_unlink_node, dom_add_node_to_list}
use perl_xml_lib_xml.Dom.Links.Chains.{IsChildList, SameElsewhere}
use perl_xml_lib_xml.Dom.Links.Unlink.{IsDetached, dom_unlink_node-IsChildList}
use perl_xml_lib_xml.Dom.Links.Fragment.{dom_add_node_to_list-fragment}
use perl_xml_lib_xml.Dom.Reconcile.Plain.{leaf, weight, nodes_of, IsPlainNode}
use perl_xml_lib_xml.Dom.Hierarchy.{
  dom_is_parent, dom_test_hierarchy, dom_test_document, may_hold, is_parent_loop,
}
use perl_xml_lib_xml.Dom.Hierarchy.Ancestors.{
  HasAncestors, IsRooted, top, below, dom_is_parent-mem, dom_test_hierarchy-mem,
  dom_test_hierarchy-IsRooted,
}
use perl_xml_lib_xml.Dom.Edit.{
  dom_append_child, dom_insert_before, dom_replace_child, insert_before,
}
use perl_xml_lib_xml.Dom.Edit.Append.{dom_append_child-move}
use perl_xml_lib_xml.Dom.Edit.Refuse.{dom_append_child-ancestor}
use perl_xml_lib_xml.Dom.Edit.OnlyChild.{dom_insert_before-only_child}
use perl_xml_lib_xml.Examples.Stores.{small_store, small_lib}

kids_of_2 : IsChildList small_store 2 (4 ∷ [])
unfolding valid
kids_of_2 = record {
  first = refl;
  final = refl;
  linked = (refl, refl, tt);
  owned = (refl, tt);
  nodes = (refl, tt);
  distinct = (refl, tt);
}

kids_of_3 : IsChildList small_store 3 (5 ∷ 6 ∷ 7 ∷ [])
unfolding valid
kids_of_3 = record {
  first = refl;
  final = refl;
  linked = (refl, refl, (refl, refl, (refl, refl, tt)));
  owned = (refl, (refl, (refl, tt)));
  nodes = (refl, (refl, (refl, tt)));
  distinct = (refl, (refl, (refl, tt)));
}

kids_of_9 : IsChildList small_store 9 (10 ∷ 11 ∷ [])
unfolding valid
kids_of_9 = record {
  first = refl;
  final = refl;
  linked = (refl, refl, (refl, refl, tt));
  owned = (refl, (refl, tt));
  nodes = (refl, (refl, tt));
  distinct = (refl, (refl, tt));
}

above_2 : HasAncestors small_store 2 (8 ∷ 1 ∷ [])
unfolding valid
above_2 = record {
  path = (refl, refl, (refl, refl, (refl, refl, refl)));
  same_doc = (refl, (refl, tt));
  inner = (refl, (refl, tt));
  top = λ v. refl;
}

6-IsPlainNode : IsPlainNode small_store 6 [] leaf
unfolding valid is_element
6-IsPlainNode = (refl, refl, (λ e. refl), refl)

6-fits_2 : may_hold 20 2 6 small_store ≡ done true small_store
unfolding may_hold dom_test_hierarchy dom_test_document dom_is_parent is_parent_loop is_attribute
    is_document valid
6-fits_2 = refl

dom_unlink_node-IsChildList_example : Returns (dom_unlink_node small_lib 6 small_store) (λ _ g.
    IsChildList g 3 (5 ∷ 7 ∷ [])
    × IsDetached 6 g
    × SameElsewhere (3 ∷ []) (5 ∷ 6 ∷ 7 ∷ []) small_store g)
unfolding valid is_dtd
dom_unlink_node-IsChildList_example =
    dom_unlink_node-IsChildList small_lib small_store 3 6 (5 ∷ []) (7 ∷ []) kids_of_3 refl refl

dom_is_parent-mem_example : dom_is_parent 10 2 8 small_store ≡ done true small_store
unfolding valid is_document
dom_is_parent-mem_example =
    dom_is_parent-mem 10 small_store 2 8 (8 ∷ 1 ∷ []) above_2 refl refl refl (omega arith)

dom_test_hierarchy-mem_example : dom_test_hierarchy 10 2 6 small_store ≡ done true small_store
unfolding valid is_attribute is_document
dom_test_hierarchy-mem_example =
    dom_test_hierarchy-mem 10 small_store 2 6 (8 ∷ 1 ∷ []) above_2 refl refl (omega arith)

6-IsRooted : IsRooted small_store.parent 6
6-IsRooted = below (below (below (below (top refl))))

dom_test_hierarchy-IsRooted_example : IsRooted (update small_store.parent 6 2) 6
unfolding dom_test_hierarchy dom_is_parent is_parent_loop is_attribute is_document valid
dom_test_hierarchy-IsRooted_example =
    dom_test_hierarchy-IsRooted 10 small_store 2 6 6 (8 ∷ 1 ∷ []) above_2 refl refl (omega arith)
      refl refl 6-IsRooted

dom_append_child-ancestor_example :
    (dom_append_child small_lib none 10 2 8 small_store ≡ croaked hierarchy_request_err small_store)
    × (insert_before small_lib none 10 2 8 4 small_store
        ≡ croaked hierarchy_request_err small_store)
    × (dom_replace_child small_lib none 10 2 8 4 small_store
        ≡ croaked hierarchy_request_err small_store)
unfolding valid is_attribute
dom_append_child-ancestor_example =
    dom_append_child-ancestor small_lib none 10 small_store 2 8 4 4 (8 ∷ 1 ∷ []) above_2 refl refl
      (omega arith) refl refl refl refl

dom_add_node_to_list-fragment_example :
    Returns (dom_add_node_to_list 10 9 4 null small_store) (λ b g.
      (b ≡ true)
      × IsChildList g 2 (4 ∷ 10 ∷ 11 ∷ [])
      × IsChildList g 9 []
      × SameElsewhere (2 ∷ 9 ∷ []) (4 ∷ 10 ∷ 11 ∷ []) small_store g)
unfolding valid is_fragment
dom_add_node_to_list-fragment_example =
    dom_add_node_to_list-fragment 10 small_store 2 9 10 (4 ∷ []) (11 ∷ []) [] kids_of_2 kids_of_9
      refl refl refl refl refl (λ a i. ground arith) (omega arith)

dom_append_child-move_example : Returns (dom_append_child small_lib none 20 2 6 small_store) (λ r g.
    (r ≡ 6)
    × IsChildList g 2 (4 ∷ 6 ∷ [])
    × IsChildList g 3 (5 ∷ 7 ∷ [])
    × SameElsewhere (2 ∷ 3 ∷ []) (4 ∷ 5 ∷ 6 ∷ 7 ∷ []) small_store g)
unfolding valid is_fragment is_dtd weight nodes_of
dom_append_child-move_example =
    dom_append_child-move small_lib none 20 small_store 2 3 6 (4 ∷ []) (5 ∷ []) (7 ∷ []) [] leaf
      kids_of_2 kids_of_3 refl refl refl refl 6-fits_2 refl refl 6-IsPlainNode (λ a i. ground arith)
      refl (omega arith)

4-IsPlainNode : IsPlainNode small_store 4 [] leaf
unfolding valid is_element
4-IsPlainNode = (refl, refl, (λ e. refl), refl)

4-fits_2 : may_hold 20 2 4 small_store ≡ done true small_store
unfolding may_hold dom_test_hierarchy dom_test_document dom_is_parent is_parent_loop is_attribute
    is_document valid
4-fits_2 = refl

dom_insert_before-only_child_example :
    Returns
      (dom_insert_before small_lib none 20 2 4 null small_store)
      (λ r g. (r ≡ 4) × IsChildList g 2 [] × IsDetached 4 g)
unfolding valid is_fragment is_dtd weight nodes_of
dom_insert_before-only_child_example =
    dom_insert_before-only_child small_lib none 20 small_store 2 4 [] leaf kids_of_2 refl refl
      4-fits_2 refl refl 4-IsPlainNode (λ a i. ground arith) refl (omega arith)
