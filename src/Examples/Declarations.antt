-- ===== src/Examples/Declarations.antt =====
-- The properties of the namespace declarations, at an element with two of them.
use perl_xml_lib_xml.Common.{[], ◌∷◌, refl, arith, true, some, none, ◌==◌, if◌then◌else◌, mem}
use perl_xml_lib_xml.Store.{Store, valid, null, update}
use perl_xml_lib_xml.Store.Outcome.{done, when, ◌>>=◌}
use perl_xml_lib_xml.Store.Returns.{Returns}
use perl_xml_lib_xml.Dom.NsDef.{dom_add_ns_def, dom_remove_ns_def}
use perl_xml_lib_xml.Dom.NsDef.Declared.{NsList}
use perl_xml_lib_xml.Dom.NsDef.Removed.{dom_remove_ns_def-dom_add_ns_def}
use perl_xml_lib_xml.Dom.Reconcile.{reconcile_holder}
use perl_xml_lib_xml.Dom.Reconcile.Holder.{CopiesNs, IsHolder, IsReconciled, is_known}
use perl_xml_lib_xml.Dom.Reconcile.Reconciled.{reconcile_holder-IsReconciled}
use perl_xml_lib_xml.Libxml.{Libxml}
use perl_xml_lib_xml.Examples.Stores.{small_store, small_lib, at}

small-NsList : NsList small_store 300 (300 ∷ 301 ∷ [])
unfolding valid
small-NsList = (refl, refl, (refl, refl, refl))

dom_remove_ns_def-dom_add_ns_def_example :
    Returns
      ((dom_remove_ns_def 9 2 301 >>= λ b. when b (dom_add_ns_def 9 2 301)) small_store)
      (λ _ g. NsList g (g.ns_def 2) (301 ∷ 300 ∷ []))
unfolding valid
dom_remove_ns_def-dom_add_ns_def_example =
    dom_remove_ns_def-dom_add_ns_def 9 small_store 2 301 (300 ∷ 301 ∷ []) small-NsList
      (refl, (refl, tt)) refl refl (omega arith)

-- 2 has the namespace 300, which it declares; 302 is declared above with the same URI.
abbrev nested_store : Store
nested_store = record small_store {
  ns = at ((2, 300) ∷ []);
  ns_href = λ p. if p == 300 then some (b'u' ∷ []) else if p == 302 then some (b'u' ∷ []) else none;
}

abbrev search_lib : Libxml
search_lib = record small_lib {
  search_ns = λ d p s h. done 302 h;
  copy_namespace = λ ns h. done 303 (record h {
    ns_live = λ q. if q == 303 then true else h.ns_live q;
    ns_next = update h.ns_next 303 null;
    ns_prefix = update h.ns_prefix 303 (h.ns_prefix ns);
    ns_href = update h.ns_href 303 (h.ns_href ns);
  });
}

nested-IsHolder : IsHolder search_lib nested_store 2 2 300 302 null (300 ∷ 301 ∷ []) []
unfolding valid
nested-IsHolder = record {
  tree_live = refl;
  holder_live = refl;
  holds = refl;
  own_live = refl;
  searched = refl;
  found_live = refl;
  declares = (refl, refl, (refl, refl, refl));
  distinct = (refl, (refl, tt));
  queued = refl;
  apart = λ a i. ground (arith, i);
  not_queued = refl;
}

search-CopiesNs : CopiesNs search_lib nested_store 300 303
search-CopiesNs = record { not_null = refl; unused = refl; result = λ g same. refl }

reconcile_holder-IsReconciled_example :
    Returns (reconcile_holder search_lib none 9 2 2 null nested_store) (λ r g.
      IsReconciled nested_store g 2 2 300 302 303 r
        (300 ∷ 301 ∷ [])
        []
        (is_known search_lib nested_store 300 302)
        (mem 300 (300 ∷ 301 ∷ [])))
unfolding valid
reconcile_holder-IsReconciled_example =
    reconcile_holder-IsReconciled search_lib none 9 nested_store 2 2 300 302 303 null
      (300 ∷ 301 ∷ []) [] nested-IsHolder search-CopiesNs (omega arith) (omega arith)
