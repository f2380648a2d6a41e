-- ===== src/Examples/Queries.antt =====
-- The query by namespace and name, at the children of a node, with node sets kept in the store.
use perl_xml_lib_xml.Common.{
  ℕ, zero, suc, ◌≤◌, ◌≡◌, refl, Bool, true, false, ◌&&◌, Option, none, some, List, [], ◌∷◌, ◌++◌,
  arith, ◌==◌, if◌then◌else◌, ==_refl,
}
use perl_xml_lib_xml.Store.{Ptr, Str, Store, update, valid}
use perl_xml_lib_xml.Store.Outcome.{done}
use perl_xml_lib_xml.Store.Returns.{Returns}
use perl_xml_lib_xml.Libxml.{Libxml}
use perl_xml_lib_xml.Dom.Links.Chains.{IsChildList}
use perl_xml_lib_xml.Dom.Values.{dom_get_elements_by_tag_name_ns}
use perl_xml_lib_xml.Dom.Values.Found.{NodeSets, SameQuery, matching, found}
use perl_xml_lib_xml.Dom.Values.Queries.{dom_get_elements_by_tag_name_ns-matching}
use perl_xml_lib_xml.Examples.Stores.{at, small_store, small_lib}

unfoldable same_str : Str → Str → Bool
same_str [] [] = true
same_str (a ∷ r) (b ∷ s) = (a == b) && same_str r s
same_str _ _ = false

unfoldable same_text : Option Str → Option Str → Bool
same_text none none = true
same_text (some a) (some b) = same_str a b
same_text _ _ = false

-- A node set is its size, and its nodes are values of a field that nothing else uses here.
unfoldable first_values : (Ptr → Ptr) → ℕ → List Ptr
first_values f zero = []
first_values f (suc k) = first_values f k ++ f k ∷ []

abbrev set_lib : Libxml
set_lib = record small_lib {
  str_equal = same_text;
  node_set_create = λ p h. done 700 (record h {
    local_proxy = update h.local_proxy 0 p;
    local_count = update h.local_count 700 1;
  });
  node_set_add = λ s p h. done tt (record h {
    local_proxy = update h.local_proxy (h.local_count s) p;
    local_count = update h.local_count s (suc (h.local_count s));
  });
}

first_values-update :
    (f : Ptr → Ptr) (k j v : ℕ) → k ≤ j → first_values (update f j v) k ≡ first_values f k
unfolding first_values
first_values-update f zero j v small = refl
first_values-update f (suc k) j v small =
    let ne : (k == j) ≡ false = ground arith in rw (first_values-update f k j v (omega arith), ne)

small_sets : NodeSets set_lib
unfolding first_values
small_sets = record {
  members = λ h s. first_values h.local_proxy (h.local_count s);
  create = λ h n. (
    refl,
    refl,
    record { live = refl; next = refl; name = refl; ns = refl; ns_live = refl; ns_href = refl },
  );
  add = λ h s n out. (
    rw
        (
          ==_refl s,
          first_values-update h.local_proxy (h.local_count s) (h.local_count s) n (omega arith),
        )
        (rw (==_refl (h.local_count s)) refl),
    record { live = refl; next = refl; name = refl; ns = refl; ns_live = refl; ns_href = refl },
  );
}

-- The small document with the names a, b and a for the children 5, 6 and 7 of 3, and with 7 in the
-- namespace 300.
abbrev named_store : Store
named_store = record small_store {
  name = λ p. if p == 6 then some (b'b' ∷ []) else some (b'a' ∷ []);
  ns = at ((7, 300) ∷ []);
  ns_href = λ p. some (b'u' ∷ []);
}

kids_of_3 : IsChildList named_store 3 (5 ∷ 6 ∷ 7 ∷ [])
unfolding valid
kids_of_3 = record {
  first = refl;
  final = refl;
  linked = (refl, refl, (refl, refl, (refl, refl, tt)));
  owned = (refl, (refl, (refl, tt)));
  nodes = (refl, (refl, (refl, tt)));
  distinct = (refl, (refl, (refl, tt)));
}

dom_get_elements_by_tag_name_ns-matching_example :
    Returns
      (dom_get_elements_by_tag_name_ns set_lib none 9 3
        (some (b'u' ∷ []))
        (some (b'a' ∷ []))
        named_store)
      (λ r g. (found set_lib none small_sets g r ≡ 7 ∷ []) × SameQuery named_store g)
unfolding valid matching same_str same_text
dom_get_elements_by_tag_name_ns-matching_example =
    dom_get_elements_by_tag_name_ns-matching set_lib none small_sets 9 named_store 3
      (some (b'u' ∷ [])) (b'a' ∷ []) (5 ∷ 6 ∷ 7 ∷ []) kids_of_3 refl (refl, (refl, (refl, tt)))
      (omega arith)
