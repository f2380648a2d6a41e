-- ===== src/Examples/Namespaces.antt =====
-- The properties of the stack of namespaces, at an element with two declarations.
use perl_xml_lib_xml.Common.{◌≡◌, refl, false, none, some, [], ◌∷◌, arith, ◌==◌}
use perl_xml_lib_xml.Store.{Ptr, null, Str, Store, update, valid}
use perl_xml_lib_xml.Store.Outcome.{done, ◌>>◌}
use perl_xml_lib_xml.Store.Returns.{Returns}
use perl_xml_lib_xml.Libxml.{Libxml}
use perl_xml_lib_xml.Sax.NsStack.{pmm_extend_ns_stack, pmm_narrow_ns_stack}
use perl_xml_lib_xml.Sax.Balance.{PushesNode, with_element, pmm_extend_ns_stack-pmm_narrow_ns_stack}
use perl_xml_lib_xml.Sax.Narrow.{end_call, DropsTop, pmm_narrow_ns_stack-ends}
use perl_xml_lib_xml.Examples.Stores.{small_store, small_lib, at}
use perl_xml_lib_xml.Examples.Handlers.{small_perl}

abbrev ab : Str
ab = b'a' ∷ b'b' ∷ []

-- The stack ends with the element 2, which declares 300 and 301.
abbrev stack_store : Store
stack_store = record small_store { sax_ns_stack = at ((501, 2) ∷ []) }

abbrev stack_lib : Libxml
stack_lib = record small_lib {
  str_equal = λ a b. false;
  new_doc_node = λ d ns name h. done 21 (with_element h 21 d ns name);
  add_child = λ s n h. done n (record h {
    parent = update h.parent n s;
    children = update h.children s n;
    last = update h.last s n;
  });
  unlink_node = λ n h. done tt (record h {
    parent = update h.parent n null;
    children = update h.children (h.parent n) null;
    last = update h.last (h.parent n) null;
  });
  free_node = λ n h. done tt (record h { live = update h.live n false });
}

stack-DropsTop : (n : Ptr) → DropsTop stack_lib n
stack-DropsTop n = record { unlink = λ g. refl; free = λ g. refl }

pmm_narrow_ns_stack-ends_example :
    Returns (pmm_narrow_ns_stack stack_lib small_perl 3 501 600 stack_store) (λ _ g.
      (g.sax_ns_stack 501 ≡ 8)
      × (g.live 2 ≡ false)
      × (g.calls ≡ end_call 600 none none ∷ end_call 600 none none ∷ []))
unfolding valid
pmm_narrow_ns_stack-ends_example =
    pmm_narrow_ns_stack-ends stack_lib small_perl 3 stack_store 501 600 2 8 (300 ∷ 301 ∷ []) refl
      refl refl refl (refl, refl, (refl, refl, refl)) (omega arith) (λ call g. refl)
      (stack-DropsTop 2)

-- There, 2 has no children.
abbrev leaf_store : Store
leaf_store = record stack_store {
  children = at ((1, 8) ∷ (8, 2) ∷ []);
  last = at ((1, 8) ∷ (8, 2) ∷ []);
}

leaf-PushesNode : PushesNode stack_lib leaf_store 2 (stack_lib.split_qname (some ab)).1 21 null
leaf-PushesNode = record {
  not_null = refl;
  unused = refl;
  search_ns = refl;
  new_doc_node = λ d n s. refl;
  add_child = λ g s leaf same_doc top next prev. refl;
}

pmm_extend_ns_stack-pmm_narrow_ns_stack_example :
    Returns
      ((pmm_extend_ns_stack stack_lib 501 (some ab)
          >> pmm_narrow_ns_stack stack_lib small_perl 1 501 600)
        leaf_store)
      (λ _ g.
        (g.sax_ns_stack 501 ≡ 2)
        × (g.live 21 ≡ false)
        × (g.calls ≡ [])
        × ((q : Ptr)
            → (q == 21) ≡ false
            → (g.live q ≡ leaf_store.live q)
              × (g.parent q ≡ leaf_store.parent q)
              × (g.children q ≡ leaf_store.children q)))
unfolding valid
pmm_extend_ns_stack-pmm_narrow_ns_stack_example =
    pmm_extend_ns_stack-pmm_narrow_ns_stack stack_lib small_perl 0 leaf_store 501 600 2 21 null
      (some ab) refl refl refl refl refl leaf-PushesNode (stack-DropsTop 21) (λ call g. refl)
