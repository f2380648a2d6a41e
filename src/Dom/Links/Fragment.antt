-- ===== src/Dom/Links/Fragment.antt =====
-- domAddNodeToList on a document fragment: all children of the fragment move.
use perl_xml_lib_xml.Common.{
  ℕ, zero, suc, ◌<◌, ◌≡◌, refl, true, false, ◌&&◌, List, [], ◌∷◌, ◌++◌, arith, ◌==◌, if◌then◌else◌,
  head_or, last_or, length, All, mem, mem-append, All_mem, All-split,
}
use perl_xml_lib_xml.Store.{Ptr, null, Store, update, valid}
use perl_xml_lib_xml.Store.Kinds.{is_fragment}
use perl_xml_lib_xml.Store.Outcome.{done}
use perl_xml_lib_xml.Store.Returns.{Returns, Returns_of_eq}
use perl_xml_lib_xml.Dom.Links.{take_nodes, adopt, dom_add_node_to_list}
use perl_xml_lib_xml.Dom.Links.Chains.{
  Links, Linked, AllNodes, IsChildList, SameElsewhere, NoneIn, valid-ne_null, mem-last_or,
  nodes-last, nodes-head, Distinct-insert, All-mono, SameElsewhere-trans, ne-last_or,
  mem-append_false,
}
use perl_xml_lib_xml.Dom.Links.Insert.{
  spliced, link-spliced, parent_of_neighbours, spliced-IsChildList, spliced-SameElsewhere,
}

-- The parent field after `adopt`.
abbrev pub reparent : List Ptr → Ptr → Links → Links
reparent [] p f = f
reparent (x ∷ xs) p f = reparent xs p (update f x p)

reparent_lem :
    (xs : List Ptr) (p : Ptr) (f : Links) (q : Ptr)
    → reparent xs p f q ≡ (if mem q xs then p else f q)
reparent_lem [] p f q = refl
reparent_lem (x ∷ xs) p f q = ground (arith, reparent_lem xs p (update f x p) q)

-- The loop `adopt` ends, and gives every node of the chain the new parent.
pub adopt-reparent :
    (k : ℕ) (h : Store) (before p : Ptr) (cs : List Ptr)
    → Linked h.next h.prev before cs null
    → AllNodes h.live cs
    → length cs < k
    → adopt k (head_or cs null) p h ≡ done tt (record h { parent = reparent cs p h.parent })
unfolding adopt
adopt-reparent zero h b p cs l all fuel = elim fuel [ ]
adopt-reparent (suc k) h b p [] l all fuel = refl
adopt-reparent (suc k) h b p (c ∷ cs) l all fuel =
    rw (valid-ne_null h.live c all.0, all.0, all.0, l.1)
      (adopt-reparent k (record h { parent = update h.parent c p }) c p cs l.2 all.1 (omega arith))

-- The store after the nodes of the fragment `cur` are taken.
abbrev pub emptied : Store → Ptr → Ptr → List Ptr → Store
emptied h cur p cs = record h {
  parent = reparent cs p h.parent;
  children = update h.children cur null;
  last = update h.last cur null;
}

take_nodes-fragment :
    (fuel : ℕ) (h : Store) (cur p c : Ptr) (cs : List Ptr)
    → valid h.live cur ≡ true
    → is_fragment (h.kind cur) ≡ true
    → IsChildList h cur (c ∷ cs)
    → length (c ∷ cs) < fuel
    → take_nodes fuel cur p h ≡ done (c, last_or c cs) (emptied h cur p (c ∷ cs))
unfolding take_nodes
take_nodes-fragment fuel h cur p c cs vc kf is enough = rw (
  vc,
  kf,
  vc,
  is.first,
  adopt-reparent fuel h null p (c ∷ cs) is.linked is.nodes enough,
  vc,
  vc,
  vc,
  vc,
  is.first,
  is.final,
)

dom_add_node_to_list-fragment_run :
    (fuel : ℕ) (h : Store) (p cur c : Ptr) (xs cs ys : List Ptr)
    → IsChildList h p (xs ++ ys)
    → IsChildList h cur (c ∷ cs)
    → (last_or null xs == null && head_or ys null == null) ≡ false
    → valid h.live p ≡ true
    → valid h.live cur ≡ true
    → is_fragment (h.kind cur) ≡ true
    → NoneIn (c ∷ cs) (xs ++ ys)
    → length (c ∷ cs) < fuel
    → dom_add_node_to_list fuel cur (last_or null xs) (head_or ys null) h
      ≡ done true (
          spliced (emptied h cur p (c ∷ cs)) p (last_or null xs) (head_or ys null) c (last_or c cs))
unfolding dom_add_node_to_list
dom_add_node_to_list-fragment_run fuel h p cur c xs cs ys is inner ends vp vc kf out enough =
    let g = emptied h cur p (c ∷ cs) in
    let end =
      All_mem (λ q. valid h.live q ≡ true) (last_or c cs) (c ∷ cs) inner.nodes (mem-last_or c cs) in
    let nc = valid-ne_null h.live c inner.nodes.0 in
    let (nx, ny) = All-split (λ q. valid h.live q ≡ true) xs ys is.nodes in
    rw (
      valid-ne_null h.live cur vc,
      ends,
      parent_of_neighbours h p xs ys is.nodes is.owned ends,
      take_nodes-fragment fuel h cur p c cs vc kf inner enough,
      nc,
      valid-ne_null h.live (last_or c cs) end,
      ne-last_or c xs nc (mem-append_false c xs ys (out c (ground arith))).0,
      link-spliced g p (last_or null xs) (head_or ys null) c (last_or c cs) vp inner.nodes.0 end
          (nodes-last h.live xs nx) (nodes-head h.live ys ny),
    )

-- Nodes of `p` and of the fragment keep what they need when the fragment is emptied for `p`.
IsChildList-emptied :
    (h : Store) (p cur : Ptr) (zs cs : List Ptr)
    → (p == cur) ≡ false
    → IsChildList h p zs
    → IsChildList (emptied h cur p cs) p zs
IsChildList-emptied h p cur zs cs ne is = record {
  first = rw ne is.first;
  final = rw ne is.final;
  linked = is.linked;
  owned =
      All-mono (λ x. h.parent x ≡ p) _ zs is.owned
        (λ x i e. ground (arith, reparent_lem cs p h.parent x));
  nodes = is.nodes;
  distinct = is.distinct;
}

owned-emptied :
    (h : Store) (cur p : Ptr) (cs : List Ptr) → All (λ x. (emptied h cur p cs).parent x ≡ p) cs
owned-emptied h cur p cs = go cs (λ a i. i)
  where
    go :
        (zs : List Ptr)
        → ((a : Ptr) → mem a zs ≡ true → mem a cs ≡ true)
        → All (λ x. (emptied h cur p cs).parent x ≡ p) zs
    go [] sub = tt
    go (z ∷ zs) sub = (
      rw (reparent_lem cs p h.parent z, sub z (ground arith)),
      go zs (λ a i. sub a (ground arith)),
    )

SameElsewhere-emptied :
    (h : Store) (p cur : Ptr) (cs zs : List Ptr)
    → ((a : Ptr) → mem a cs ≡ true → mem a zs ≡ true)
    → SameElsewhere (p ∷ cur ∷ []) zs h (emptied h cur p cs)
SameElsewhere-emptied h p cur cs zs sub = record {
  next = λ q out. refl;
  prev = λ q out. refl;
  parent = λ q out. ground (arith, reparent_lem cs p h.parent q, sub q);
  first = λ q out. ground arith;
  final = λ q out. ground arith;
  live = refl;
  kind = refl;
  doc = refl;
  ns = refl;
  properties = refl;
  others = refl;
}

SameElsewhere-more :
    (p r : Ptr) (zs : List Ptr) {h g : Store}
    → SameElsewhere (p ∷ []) zs h g
    → SameElsewhere (p ∷ r ∷ []) zs h g
SameElsewhere-more p r zs s = record {
  next = s.next;
  prev = s.prev;
  parent = s.parent;
  first = λ q out. s.first q (ground arith);
  final = λ q out. s.final q (ground arith);
  live = s.live;
  kind = s.kind;
  doc = s.doc;
  ns = s.ns;
  properties = s.properties;
  others = s.others;
}

spliced-empty :
    (h : Store) (p cur leader followup c1 c2 : Ptr) (cs : List Ptr)
    → (p == cur) ≡ false
    → IsChildList (spliced (emptied h cur p cs) p leader followup c1 c2) cur []
spliced-empty h p cur leader followup c1 c2 cs ne = record {
  first = ground arith;
  final = ground arith;
  linked = tt;
  owned = tt;
  nodes = tt;
  distinct = tt;
}

-- Let `xs ++ ys`, not empty, be the children of the node `p`, and `c ∷ cs` those of the fragment `cur`,
-- another node, with all pointers in agreement and no node in both lists. With more fuel than the fragment has nodes,
-- domAddNodeToList, given the last of `xs` and the first of `ys` as neighbours, returns 1, the children of
-- `p` are `xs`, the nodes of the fragment in their order, and `ys`, the fragment has no children left, and
-- no other node changes except for the child pointers of `p` and of the fragment.
pub dom_add_node_to_list-fragment :
    (fuel : ℕ) (h : Store) (p cur c : Ptr) (xs cs ys : List Ptr)
    → IsChildList h p (xs ++ ys)
    → IsChildList h cur (c ∷ cs)
    → (last_or null xs == null && head_or ys null == null) ≡ false
    → valid h.live p ≡ true
    → valid h.live cur ≡ true
    → (p == cur) ≡ false
    → is_fragment (h.kind cur) ≡ true
    → NoneIn (c ∷ cs) (xs ++ ys)
    → length (c ∷ cs) < fuel
    → Returns (dom_add_node_to_list fuel cur (last_or null xs) (head_or ys null) h) (λ b g.
      (b ≡ true)
      × IsChildList g p (xs ++ ((c ∷ cs) ++ ys))
      × IsChildList g cur []
      × SameElsewhere (p ∷ cur ∷ []) (xs ++ ((c ∷ cs) ++ ys)) h g)
dom_add_node_to_list-fragment fuel h p cur c xs cs ys is inner ends vp vc ne kf out enough =
    let g = emptied h cur p (c ∷ cs) in
    let apart = Distinct-insert xs (c ∷ cs) ys is.distinct inner.distinct out in
    let all = xs ++ ((c ∷ cs) ++ ys) in
    let inside : (a : Ptr) → mem a (c ∷ cs) ≡ true → mem a all ≡ true =
      λ a i. ground (arith, mem-append a xs ((c ∷ cs) ++ ys), mem-append a (c ∷ cs) ys) in
    Returns_of_eq
      (λ b k.
        (b ≡ true)
        × IsChildList k p all
        × IsChildList k cur []
        × SameElsewhere (p ∷ cur ∷ []) all h k)
      (dom_add_node_to_list-fragment_run fuel h p cur c xs cs ys is inner ends vp vc kf out enough)
      (
        refl,
        spliced-IsChildList g p c xs cs ys (IsChildList-emptied h p cur (xs ++ ys) (c ∷ cs) ne is)
            inner.linked (owned-emptied h cur p (c ∷ cs)) inner.nodes apart,
        spliced-empty h p cur (last_or null xs) (head_or ys null) c (last_or c cs) (c ∷ cs) ne,
        SameElsewhere-trans (SameElsewhere-emptied h p cur (c ∷ cs) all inside)
            (SameElsewhere-more p cur all (spliced-SameElsewhere g p c xs cs ys)),
      )
