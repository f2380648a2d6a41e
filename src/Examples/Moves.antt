-- ===== src/Examples/Moves.antt =====
-- insertBefore, replaceChild, PmmFixOwner and domRemoveNsRefs, at a document with a fragment.
use perl_xml_lib_xml.Common.{
  true, false, none, some, List, [], ◌∷◌, ◌≡◌, refl, arith, ◌==◌, if◌then◌else◌,
}
use perl_xml_lib_xml.Store.{Ptr, Store, valid}
use perl_xml_lib_xml.Store.Kinds.{
  is_element, is_attribute, is_fragment, is_dtd, is_document, is_entity_ref,
}
use perl_xml_lib_xml.Store.Outcome.{done}
use perl_xml_lib_xml.Store.Returns.{Returns}
use perl_xml_lib_xml.Dom.Links.Chains.{IsChildList, SameElsewhere}
use perl_xml_lib_xml.Dom.Reconcile.Plain.{leaf, tree, weight, nodes_of, IsPlainNode}
use perl_xml_lib_xml.Dom.Hierarchy.{
  dom_is_parent, dom_test_hierarchy, dom_test_document, may_hold, is_parent_loop,
}
use perl_xml_lib_xml.Dom.Links.Unlink.{IsDetached}
use perl_xml_lib_xml.Dom.Edit.{dom_insert_before, dom_replace_child}
use perl_xml_lib_xml.Dom.Edit.Replace.{dom_replace_child-move}
use perl_xml_lib_xml.Dom.Edit.Before.{dom_insert_before-move, dom_insert_before-reorder}
use perl_xml_lib_xml.Dom.Traverse.{dom_remove_ns_refs}
use perl_xml_lib_xml.Dom.Traverse.NsRefs.{dropped, with_ns, dom_remove_ns_refs-dropped}
use perl_xml_lib_xml.Proxy.Node.{element_class, has_doc_proxy, pmm_node_type_name}
use perl_xml_lib_xml.Proxy.Counting.{IsProxyOf}
use perl_xml_lib_xml.Proxy.Owner.{has_no_owner, pmm_fix_owner}
use perl_xml_lib_xml.Proxy.Owner.Moved.{all_moved}
use perl_xml_lib_xml.Proxy.Owner.Walk.{nothing, subtree, size, proxies, IsInner}
use perl_xml_lib_xml.Proxy.Owner.Same.{nodes}
use perl_xml_lib_xml.Proxy.Owner.Fixed.{pmm_fix_owner-subtree}
use perl_xml_lib_xml.Xs.Insert.{xs_insert_before}
use perl_xml_lib_xml.Xs.Inserted.{BelongsTo, IsOwnedTree, wrapped_moved}
use perl_xml_lib_xml.Xs.Moved.{xs_insert_before-moved}
use perl_xml_lib_xml.Examples.Stores.{at, small_store, small_lib}

abbrev proxies_of_nodes : List (Ptr × Ptr)
proxies_of_nodes = (1, 101) ∷ (3, 103) ∷ (6, 106) ∷ (9, 109) ∷ (10, 110) ∷ (12, 112) ∷ []

abbrev nodes_of_proxies : List (Ptr × Ptr)
nodes_of_proxies = (101, 1) ∷ (103, 3) ∷ (106, 6) ∷ (109, 9) ∷ (110, 10) ∷ (112, 12) ∷ []

-- The small document with 12 below 10. 10 and 12 have proxies that belong to the fragment 9; the proxies
-- of 3 and 6 belong to the document.
abbrev fragment_store : Store
fragment_store = record small_store {
  children = at ((1, 8) ∷ (8, 2) ∷ (2, 4) ∷ (3, 5) ∷ (9, 10) ∷ (10, 12) ∷ []);
  last = at ((1, 8) ∷ (8, 3) ∷ (2, 4) ∷ (3, 7) ∷ (9, 11) ∷ (10, 12) ∷ []);
  parent = at (
      (8, 1)
      ∷ (2, 8)
      ∷ (3, 8)
      ∷ (4, 2)
      ∷ (5, 3)
      ∷ (6, 3)
      ∷ (7, 3)
      ∷ (10, 9)
      ∷ (11, 9)
      ∷ (12, 10)
      ∷ []);
  priv = at proxies_of_nodes;
  proxy_live = λ p. (if at nodes_of_proxies p == 0 then false else true);
  proxy_node = at nodes_of_proxies;
  proxy_owner = at ((103, 1) ∷ (106, 1) ∷ (110, 9) ∷ (112, 9) ∷ []);
  proxy_count = at ((101, 3) ∷ (103, 1) ∷ (106, 1) ∷ (109, 3) ∷ (110, 1) ∷ (112, 1) ∷ []);
}

kids_of_3 : IsChildList fragment_store 3 (5 ∷ 6 ∷ 7 ∷ [])
unfolding valid
kids_of_3 = record {
  first = refl;
  final = refl;
  linked = (refl, refl, (refl, refl, (refl, refl, tt)));
  owned = (refl, (refl, (refl, tt)));
  nodes = (refl, (refl, (refl, tt)));
  distinct = (refl, (refl, (refl, tt)));
}

kids_of_9 : IsChildList fragment_store 9 (10 ∷ 11 ∷ [])
unfolding valid
kids_of_9 = record {
  first = refl;
  final = refl;
  linked = (refl, refl, (refl, refl, tt));
  owned = (refl, (refl, tt));
  nodes = (refl, (refl, tt));
  distinct = (refl, (refl, tt));
}

10-fits_3 : may_hold 20 3 10 fragment_store ≡ done true fragment_store
unfolding may_hold dom_test_hierarchy dom_test_document dom_is_parent is_parent_loop is_attribute
    is_document valid
10-fits_3 = refl

7-fits_3 : may_hold 20 3 7 fragment_store ≡ done true fragment_store
unfolding may_hold dom_test_hierarchy dom_test_document dom_is_parent is_parent_loop is_attribute
    is_document valid
7-fits_3 = refl

10-IsPlainNode : IsPlainNode fragment_store 10 [] (tree 12 [] leaf leaf)
unfolding valid is_element
10-IsPlainNode = (refl, refl, (λ e. refl), (refl, refl, refl, (λ e. refl), refl, refl))

7-IsPlainNode : IsPlainNode fragment_store 7 [] leaf
unfolding valid is_element
7-IsPlainNode = (refl, refl, (λ e. refl), refl)

dom_insert_before-move_example :
    Returns (dom_insert_before small_lib none 20 3 10 6 fragment_store) (λ r g.
      (r ≡ 10)
      × IsChildList g 3 (5 ∷ 10 ∷ 6 ∷ 7 ∷ [])
      × IsChildList g 9 (11 ∷ [])
      × SameElsewhere (3 ∷ 9 ∷ []) (5 ∷ 6 ∷ 7 ∷ 10 ∷ 11 ∷ []) fragment_store g)
unfolding valid is_fragment is_dtd weight nodes_of
dom_insert_before-move_example =
    dom_insert_before-move small_lib none 20 fragment_store 3 9 10 6 [] (11 ∷ []) (5 ∷ []) (7 ∷ [])
      [] (tree 12 [] leaf leaf) kids_of_3 kids_of_9 refl refl refl refl 10-fits_3 refl refl
      10-IsPlainNode (λ a i. ground arith) refl (omega arith)

dom_insert_before-reorder_example :
    Returns (dom_insert_before small_lib none 20 3 7 5 fragment_store) (λ r g.
      (r ≡ 7)
      × IsChildList g 3 (7 ∷ 5 ∷ 6 ∷ [])
      × SameElsewhere (3 ∷ []) (5 ∷ 6 ∷ 7 ∷ []) fragment_store g)
unfolding valid is_fragment is_dtd weight nodes_of
dom_insert_before-reorder_example =
    dom_insert_before-reorder small_lib none 20 fragment_store 3 7 5 (5 ∷ 6 ∷ []) [] [] (6 ∷ []) []
      leaf kids_of_3 refl refl refl 7-fits_3 refl refl 7-IsPlainNode (λ a i. ground arith) refl
      (omega arith)

dom_replace_child-move_example :
    Returns (dom_replace_child small_lib none 20 3 10 6 fragment_store) (λ r g.
      (r ≡ 6)
      × IsDetached 6 g
      × IsChildList g 3 (5 ∷ 10 ∷ 7 ∷ [])
      × IsChildList g 9 (11 ∷ [])
      × SameElsewhere (3 ∷ 9 ∷ []) (5 ∷ 6 ∷ 7 ∷ 10 ∷ 11 ∷ []) fragment_store g)
unfolding valid is_fragment is_dtd weight nodes_of
dom_replace_child-move_example =
    dom_replace_child-move small_lib none 20 fragment_store 3 9 10 6 [] (11 ∷ []) (5 ∷ []) (7 ∷ [])
      [] (tree 12 [] leaf leaf) kids_of_3 kids_of_9 refl refl refl refl refl 10-fits_3 refl refl
      10-IsPlainNode (λ a i. ground arith) refl (omega arith)

12-IsInner : IsInner fragment_store 12
unfolding valid is_document is_dtd
12-IsInner = record {
  live = refl;
  below = refl;
  no_document = refl;
  no_dtd = refl;
  proxy_live = λ e. refl;
  proxy_node = λ e. refl;
}

10-IsOwnedTree :
    IsOwnedTree fragment_store 10 101 109 9 nothing (subtree 12 nothing nothing nothing)
unfolding valid is_document is_dtd is_attribute has_no_owner has_doc_proxy proxies
10-IsOwnedTree = record {
  inner = record {
    live = refl;
    below = refl;
    no_document = refl;
    no_dtd = refl;
    proxy_live = λ e. refl;
    proxy_node = λ e. refl;
  };
  has_owner = refl;
  no_doc_proxy = refl;
  has_proxy = refl;
  attrs_are = refl;
  kids_are = (refl, 12-IsInner, refl, refl, refl);
  owners = record {
    new_live = refl;
    old_live = refl;
    differ = refl;
    owner_live = refl;
    owner_proxy = refl;
  };
  can_move = record {
    owned = λ q i. ground arith;
    distinct = (refl, (refl, tt));
    not_new = refl;
    not_old = refl;
    remain = omega arith;
    old_small = omega arith;
    new_small = omega arith;
  };
  room = omega arith;
}

6-IsProxied : IsProxyOf fragment_store 106 6
unfolding valid
6-IsProxied = record { proxy_live = refl; live = refl; forth = refl; back = refl }

3-BelongsTo : BelongsTo fragment_store 3 101
unfolding valid
3-BelongsTo = record { live = refl; proxy_live = refl; owner_live = refl; owner_proxy = refl }

pmm_fix_owner-subtree_example :
    pmm_fix_owner small_lib 20 110 101 fragment_store
    ≡ done true (
        all_moved fragment_store 101 109 9
          (110 ∷ 112 ∷ [])
          fragment_store.proxy_owner
          fragment_store.proxy_count)
unfolding has_no_owner proxies is_attribute size
pmm_fix_owner-subtree_example =
    pmm_fix_owner-subtree small_lib 20 fragment_store 101 109 9 10 nothing
      (subtree 12 nothing nothing nothing) 10-IsOwnedTree.owners 10-IsOwnedTree.inner refl refl
      10-IsOwnedTree.attrs_are 10-IsOwnedTree.kids_are 10-IsOwnedTree.can_move (omega arith)

xs_insert_before-moved_example :
    Returns (xs_insert_before small_lib none 20 3 10 (some 106) fragment_store) (λ r g.
      (r ≡ some (element_class, 110))
      × IsChildList g 3 (5 ∷ 10 ∷ 6 ∷ 7 ∷ [])
      × IsChildList g 9 (11 ∷ [])
      × (g.proxy_owner
          ≡ (wrapped_moved fragment_store 10 101 109 9 nothing
              (subtree 12 nothing nothing nothing)).proxy_owner)
      × (g.proxy_count
          ≡ (wrapped_moved fragment_store 10 101 109 9 nothing
              (subtree 12 nothing nothing nothing)).proxy_count))
unfolding valid is_fragment weight nodes_of nodes size pmm_node_type_name
xs_insert_before-moved_example =
    xs_insert_before-moved small_lib none 20 fragment_store 3 9 10 6 106 101 109 9 [] (11 ∷ [])
      (5 ∷ []) (7 ∷ []) [] (tree 12 [] leaf leaf) nothing (subtree 12 nothing nothing nothing)
      kids_of_3 kids_of_9 refl refl refl 10-fits_3 refl 10-IsPlainNode (λ a i. ground arith) refl
      (omega arith) 6-IsProxied 3-BelongsTo 10-IsOwnedTree (λ a i. ground arith) (omega arith)

-- The small document with the namespace 300 at 3 and 6, and 301 at 5.
abbrev ns_store : Store
ns_store = record small_store { ns = at ((3, 300) ∷ (5, 301) ∷ (6, 300) ∷ []) }

dom_remove_ns_refs-dropped_example :
    dom_remove_ns_refs 20 3 300 ns_store
    ≡ done true (with_ns ns_store (dropped 300 ns_store.ns (3 ∷ 5 ∷ 6 ∷ 7 ∷ [])))
unfolding valid is_element is_entity_ref nodes_of weight
dom_remove_ns_refs-dropped_example =
    dom_remove_ns_refs-dropped 20 ns_store 3 300 []
      (tree 5 [] leaf (tree 6 [] leaf (tree 7 [] leaf leaf))) refl refl refl
      (
        refl,
        refl,
        refl,
        refl,
        refl,
        (refl, refl, refl, refl, refl, (refl, refl, refl, refl, refl, refl)),
      )
      refl (omega arith)
