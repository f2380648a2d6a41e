-- ===== src/Dom/Values/Queries.antt =====
-- The queries by name as filters (domGetElementsByTagName, domGetElementsByTagNameNS).
use perl_xml_lib_xml.Common.{
  ℕ, zero, suc, ◌<◌, ◌≡◌, refl, ap, sym, Bool, true, false, ◌||◌, not, Option, none, some, List, [],
  ◌∷◌, arith, ◌==◌, if◌then◌else◌, head_or, length, All, mem, Distinct, Bool-cases, inl, inr,
}
use perl_xml_lib_xml.Store.{Ptr, null, Str, Store, valid}
use perl_xml_lib_xml.Store.Outcome.{pure, done, ◌>>=◌}
use perl_xml_lib_xml.Store.Fields.{get_ns_href}
use perl_xml_lib_xml.Store.Returns.{Returns}
use perl_xml_lib_xml.Libxml.{Libxml}
use perl_xml_lib_xml.Dom.Links.Chains.{IsChildList, Linked, AllNodes, valid-ne_null}
use perl_xml_lib_xml.Dom.Values.{
  tag_name_loop, tag_name_ns_loop, dom_get_elements_by_tag_name, dom_get_elements_by_tag_name_ns,
}
use perl_xml_lib_xml.Dom.Values.Found.{
  SameQuery, SameQuery-refl, NodeSets, matching, append-[], found, Added, loop_round,
}

module _ (lib : Libxml) (xml : Option Str) (sets : NodeSets lib) where
  -- The test of domGetElementsByTagName.
  abbrev pub has_name : Option Str → Store → Ptr → Bool
  has_name name h x = lib.str_equal name (h.name x)

  tag_name_loop-matching :
      (k : ℕ) (h g : Store) (name : Option Str) (before c rv : Ptr) (xs : List Ptr)
      → c ≡ head_or xs null
      → Linked h.next h.prev before xs null
      → AllNodes h.live xs
      → Distinct xs
      → SameQuery h g
      → ((x : Ptr) → mem x xs ≡ true → mem x (found lib xml sets g rv) ≡ false)
      → length xs < k
      → Returns
          (tag_name_loop lib xml k name c rv g)
          (Added lib xml sets g rv (matching (has_name name h) xs))
  unfolding tag_name_loop matching
  tag_name_loop-matching zero h g name before c rv xs at l nodes apart same out enough =
      elim enough [ ]
  tag_name_loop-matching (suc k) h g name before c rv [] at l nodes apart same out enough =
      rw at (sym (append-[] (found lib xml sets g rv)), SameQuery-refl g)
  tag_name_loop-matching (suc k) h g name before c rv (x ∷ xs) at l nodes apart same out enough =
      let live : valid g.live x ≡ true = rw same.live nodes.0 in
      rw (at, valid-ne_null g.live x live, live)
        (loop_round lib xml sets h g before x rv xs (has_name name) (tag_name_loop lib xml k name) l
          nodes apart same out (ap (λ f. lib.str_equal name (f x)) same.name)
          λ r f same' out'.
            tag_name_loop-matching k h f name x (head_or xs null) r xs refl l.2 nodes.1 apart.1
              same' out' (omega arith))

  -- The test of domGetElementsByTagNameNS.
  abbrev pub has_ns_name : Option Str → Option Str → Store → Ptr → Bool
  has_ns_name uri name h x =
      if not (lib.str_equal name (h.name x)) || (h.ns x == null)
      then false
      else lib.str_equal uri (h.ns_href (h.ns x))

  -- The namespace of a node, if it has one, may be followed.
  abbrev pub HasNs : Store → Ptr → Type 0
  HasNs h x = (valid h.ns_live (h.ns x) || (h.ns x == null)) ≡ true

  has_ns_name-run :
      (g : Store) (uri name : Option Str) (x : Ptr)
      → HasNs g x
      → (if not (lib.str_equal name (g.name x)) || (g.ns x == null)
            then pure false
            else (get_ns_href (g.ns x) >>= λ href. pure (lib.str_equal uri href)))
          g
        ≡ done (has_ns_name uri name g x) g
  has_ns_name-run g uri name x space =
      elim (Bool-cases (not (lib.str_equal name (g.name x)) || (g.ns x == null))) [
        | inl e ↦ rw e
        | inr e ↦
            let some_ns : valid g.ns_live (g.ns x) ≡ true = ground (arith, space, e) in
            rw (e, some_ns)
      ]

  tag_name_ns_loop-matching :
      (k : ℕ) (h g : Store) (uri name : Option Str) (before c rv : Ptr) (xs : List Ptr)
      → c ≡ head_or xs null
      → Linked h.next h.prev before xs null
      → AllNodes h.live xs
      → All (HasNs h) xs
      → Distinct xs
      → SameQuery h g
      → ((x : Ptr) → mem x xs ≡ true → mem x (found lib xml sets g rv) ≡ false)
      → length xs < k
      → Returns
          (tag_name_ns_loop lib xml k uri name c rv g)
          (Added lib xml sets g rv (matching (has_ns_name uri name h) xs))
  unfolding tag_name_ns_loop matching
  tag_name_ns_loop-matching zero h g uri name before c rv xs at l nodes spaces apart same out
        enough =
      elim enough [ ]
  tag_name_ns_loop-matching (suc k) h g uri name before c rv [] at l nodes spaces apart same out
        enough =
      rw at (sym (append-[] (found lib xml sets g rv)), SameQuery-refl g)
  tag_name_ns_loop-matching (suc k) h g uri name before c rv (x ∷ xs) at l nodes spaces apart same
        out enough =
      let live : valid g.live x ≡ true = rw same.live nodes.0 in
      let same_test : has_ns_name uri name g x ≡ has_ns_name uri name h x =
        rw (same.name, same.ns, same.ns_href) refl in
      let space : HasNs g x = rw (same.ns, same.ns_live) spaces.0 in
      rw (at, valid-ne_null g.live x live, live, live, has_ns_name-run g uri name x space)
        (loop_round lib xml sets h g before x rv xs (has_ns_name uri name)
          (tag_name_ns_loop lib xml k uri name) l nodes apart same out same_test
          λ r f same' out'.
            tag_name_ns_loop-matching k h f uri name x (head_or xs null) r xs refl l.2 nodes.1
              spaces.1 apart.1 same' out' (omega arith))

  -- What domGetElementsByTagNameNS looks for, with or without a namespace.
  abbrev pub is_match : Option Str → Option Str → Store → Ptr → Bool
  is_match none name h = has_name name h
  is_match (some u) name h = has_ns_name (some u) name h

  -- Let `xs` be the children of the node `n`, and the namespace of each, if it has one, be live. Let the
  -- node sets of libxml2 be as `NodeSets` says. With a name, and fuel of more than the number of children,
  -- domGetElementsByTagNameNS(n, uri, name), and without a URI domGetElementsByTagName(n, name), returns
  -- a node set of just those children, in their order, that have the name, and the URI if there is one;
  -- what it reads of the nodes stays as it was.
  pub dom_get_elements_by_tag_name_ns-matching :
      (fuel : ℕ) (h : Store) (n : Ptr) (uri : Option Str) (name : Str) (xs : List Ptr)
      → IsChildList h n xs
      → valid h.live n ≡ true
      → All (HasNs h) xs
      → length xs < fuel
      → Returns (dom_get_elements_by_tag_name_ns lib xml fuel n uri (some name) h) (λ r g.
        (found lib xml sets g r ≡ matching (is_match uri (some name) h) xs) × SameQuery h g)
  unfolding dom_get_elements_by_tag_name_ns dom_get_elements_by_tag_name
  dom_get_elements_by_tag_name_ns-matching fuel h n none name xs is vn spaces enough =
      rw (valid-ne_null h.live n vn, vn)
        (tag_name_loop-matching fuel h h (some name) null (h.children n) null xs is.first is.linked
          is.nodes is.distinct (SameQuery-refl h) (λ x i. refl) enough)
  dom_get_elements_by_tag_name_ns-matching fuel h n (some uri) name xs is vn spaces enough =
      rw (valid-ne_null h.live n vn, vn)
        (tag_name_ns_loop-matching fuel h h (some uri) (some name) null (h.children n) null xs
          is.first is.linked is.nodes spaces is.distinct (SameQuery-refl h) (λ x i. refl) enough)
