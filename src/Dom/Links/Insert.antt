-- ===== src/Dom/Links/Insert.antt =====
-- domAddNodeToList puts a node, or the nodes of a fragment, between two neighbouring children.
use perl_xml_lib_xml.Common.{
  ℕ, ◌≡◌, refl, true, false, ◌&&◌, not, List, [], ◌∷◌, ◌++◌, arith, ◌==◌, if◌then◌else◌, head_or,
  last_or, All, mem, Distinct, mem-append, All-append, All-split, All_mem,
}
use perl_xml_lib_xml.Store.{Ptr, null, Store, update, valid}
use perl_xml_lib_xml.Store.Kinds.{is_fragment}
use perl_xml_lib_xml.Store.Outcome.{done, ◌>>◌}
use perl_xml_lib_xml.Store.Returns.{Returns, Returns_of_eq}
use perl_xml_lib_xml.Store.Fields.{get_parent}
use perl_xml_lib_xml.Dom.Links.{link_front, link_back, take_nodes, dom_add_node_to_list}
use perl_xml_lib_xml.Dom.Links.Chains.{
  Linked, AllNodes, IsChildList, SameElsewhere, valid-ne_null, mem-null_nodes, mem-last_or,
  head_or-with, last_or-with, if-update, All-mono, nodes-last, nodes-head, mem-ne, mem-append_false,
  NoneIn-one, SameElsewhere-trans, SameElsewhere-parent, Distinct-insert, ne-last_or, last_or-not,
  head_or-not,
}
use perl_xml_lib_xml.Dom.Links.Splice.{
  spliced_next, spliced_prev, Linked-splice, spliced_next-other, spliced_prev-other,
}
use perl_xml_lib_xml.Dom.Links.Unlink.{IsRef}

-- The store after link_front and link_back.
abbrev pub spliced : Store → Ptr → Ptr → Ptr → Ptr → Ptr → Store
spliced h p leader followup c1 c2 = record h {
  next = spliced_next h.next leader followup c1 c2;
  prev = spliced_prev h.prev leader followup c1 c2;
  children = if leader == null then update h.children p c1 else h.children;
  last = if followup == null then update h.last p c2 else h.last;
}

pub link-spliced :
    (h : Store) (p leader followup c1 c2 : Ptr)
    → valid h.live p ≡ true
    → valid h.live c1 ≡ true
    → valid h.live c2 ≡ true
    → IsRef h leader
    → IsRef h followup
    → (link_front leader c1 p >> link_back followup c2 p) h
      ≡ done tt (spliced h p leader followup c1 c2)
unfolding link_front link_back
link-spliced h p leader followup c1 c2 vp v1 v2 vl vf = ground (arith, valid-ne_null h.live p)

pub spliced-SameElsewhere :
    (h : Store) (p c : Ptr) (xs cs ys : List Ptr)
    → SameElsewhere
        (p ∷ [])
        (xs ++ ((c ∷ cs) ++ ys))
        h
        (spliced h p (last_or null xs) (head_or ys null) c (last_or c cs))
spliced-SameElsewhere h p c xs cs ys = record {
  next = λ q out.
      let (qx, qr) = mem-append_false q xs ((c ∷ cs) ++ ys) out in
      let (qc, qy) = mem-append_false q (c ∷ cs) ys qr in
      spliced_next-other h.next (last_or null xs) (head_or ys null) c (last_or c cs) q
        (last_or-not q xs qx) (mem-ne q (last_or c cs) (c ∷ cs) qc (mem-last_or c cs));
  prev = λ q out.
      let (qx, qr) = mem-append_false q xs ((c ∷ cs) ++ ys) out in
      let (qc, qy) = mem-append_false q (c ∷ cs) ys qr in
      spliced_prev-other h.prev (last_or null xs) (head_or ys null) c (last_or c cs) q
        (head_or-not q ys qy) (ground arith);
  parent = λ q out. refl;
  first = λ q out. ground arith;
  final = λ q out. ground arith;
  live = refl;
  kind = refl;
  doc = refl;
  ns = refl;
  properties = refl;
  others = refl;
}

-- The chain `c ∷ cs` under `p`, between `xs` and `ys`.
module _ (h : Store) (p c : Ptr) (xs cs ys : List Ptr) (is : IsChildList h p (xs ++ ys))
    (chain : Linked h.next h.prev null (c ∷ cs) null) (owned : All (λ x. h.parent x ≡ p) (c ∷ cs))
    (nodes : AllNodes h.live (c ∷ cs)) (apart : Distinct (xs ++ ((c ∷ cs) ++ ys))) where
  abbrev pub after_splice : Store
  after_splice = spliced h p (last_or null xs) (head_or ys null) c (last_or c cs)

  all_nodes : AllNodes h.live (xs ++ ((c ∷ cs) ++ ys))
  all_nodes =
      let P = λ (x : Ptr). valid h.live x ≡ true in
      let (a, b) = All-split P xs ys is.nodes in
      All-append P xs ((c ∷ cs) ++ ys) a (All-append P (c ∷ cs) ys nodes b)

  some_nodes : mem null (xs ++ ys) ≡ false
  some_nodes = mem-null_nodes h.live (xs ++ ys) is.nodes

  pub spliced-IsChildList : IsChildList after_splice p (xs ++ ((c ∷ cs) ++ ys))
  spliced-IsChildList = record {
    first =
        rw (if-update, is.first)
          (head_or-with c xs cs ys (mem-append_false null xs ys some_nodes).0);
    final =
        rw (if-update, is.final)
          (last_or-with c xs cs ys (mem-append_false null xs ys some_nodes).1);
    linked =
        Linked-splice h.next h.prev c xs cs ys apart
          (mem-null_nodes h.live (xs ++ ((c ∷ cs) ++ ys)) all_nodes) is.linked chain;
    owned =
        let P = λ (x : Ptr). h.parent x ≡ p in
        let (a, b) = All-split P xs ys is.owned in
        All-append P xs ((c ∷ cs) ++ ys) a (All-append P (c ∷ cs) ys owned b);
    nodes = all_nodes;
    distinct = apart;
  }

-- The parent that domAddNodeToList reads, from the leader or else from the followup.
pub parent_of_neighbours :
    (h : Store) (p : Ptr) (xs ys : List Ptr)
    → AllNodes h.live (xs ++ ys)
    → All (λ q. h.parent q ≡ p) (xs ++ ys)
    → (last_or null xs == null && head_or ys null == null) ≡ false
    → (if not (last_or null xs == null)
          then get_parent (last_or null xs)
          else get_parent (head_or ys null))
        h
      ≡ done p h
parent_of_neighbours h p [] [] nodes owned some_end = cc
parent_of_neighbours h p [] (y ∷ ys) nodes owned some_end = rw (nodes.0, owned.0)
parent_of_neighbours h p (x ∷ xs) ys nodes owned some_end =
    let t = last_or x xs in
    let P = λ (q : Ptr). valid h.live q ≡ true in
    let Q = λ (q : Ptr). h.parent q ≡ p in
    let good = All_mem P t (x ∷ xs) (All-split P (x ∷ xs) ys nodes).0 (mem-last_or x xs) in
    let up = All_mem Q t (x ∷ xs) (All-split Q (x ∷ xs) ys owned).0 (mem-last_or x xs) in
    rw (valid-ne_null h.live t good, good, up)

take_nodes-node :
    (fuel : ℕ) (h : Store) (cur p : Ptr)
    → valid h.live cur ≡ true
    → is_fragment (h.kind cur) ≡ false
    → take_nodes fuel cur p h ≡ done (cur, cur) (record h { parent = update h.parent cur p })
unfolding take_nodes
take_nodes-node fuel h cur p vc kf = rw (vc, kf, vc)

-- The children of `p` stay what they are when a node's parent becomes `p`.
IsChildList-parent :
    (h : Store) (p cur : Ptr) (zs : List Ptr)
    → IsChildList h p zs
    → IsChildList (record h { parent = update h.parent cur p }) p zs
IsChildList-parent h p cur zs is = record {
  first = is.first;
  final = is.final;
  linked = is.linked;
  owned = All-mono (λ x. h.parent x ≡ p) _ zs is.owned (λ x i e. ground arith);
  nodes = is.nodes;
  distinct = is.distinct;
}

-- What domAddNodeToList does to the store, whatever stands between the two neighbours.
pub dom_add_node_to_list-node_run :
    (fuel : ℕ) (h : Store) (p cur : Ptr) (xs ys : List Ptr)
    → AllNodes h.live (xs ++ ys)
    → All (λ q. h.parent q ≡ p) (xs ++ ys)
    → (last_or null xs == null && head_or ys null == null) ≡ false
    → valid h.live p ≡ true
    → valid h.live cur ≡ true
    → is_fragment (h.kind cur) ≡ false
    → mem cur (xs ++ ys) ≡ false
    → dom_add_node_to_list fuel cur (last_or null xs) (head_or ys null) h
      ≡ done true (
          spliced
            (record h { parent = update h.parent cur p })
            p
            (last_or null xs)
            (head_or ys null)
            cur
            cur)
unfolding dom_add_node_to_list
dom_add_node_to_list-node_run fuel h p cur xs ys nodes owned ends vp vc kf out =
    let g = record h { parent = update h.parent cur p } in
    let ne = valid-ne_null h.live cur vc in
    let (nx, ny) = All-split (λ q. valid h.live q ≡ true) xs ys nodes in
    rw (
      ne,
      ends,
      parent_of_neighbours h p xs ys nodes owned ends,
      take_nodes-node fuel h cur p vc kf,
      ne,
      ne-last_or cur xs ne (mem-append_false cur xs ys out).0,
      link-spliced g p (last_or null xs) (head_or ys null) cur cur vp vc vc
          (nodes-last h.live xs nx) (nodes-head h.live ys ny),
    )

-- Let `xs ++ ys`, not empty, be the children of the node `p`, with all pointers in agreement, and `cur` a
-- node that is not among them, has no siblings and is no fragment. Then domAddNodeToList, given the last
-- of `xs` and the first of `ys` as neighbours (NULL where there is none), returns 1, the children of `p`
-- are `xs`, `cur` and `ys`, with all pointers in agreement, and no other node changes except for the two
-- child pointers of `p`.
pub dom_add_node_to_list-node :
    (fuel : ℕ) (h : Store) (p cur : Ptr) (xs ys : List Ptr)
    → IsChildList h p (xs ++ ys)
    → (last_or null xs == null && head_or ys null == null) ≡ false
    → valid h.live p ≡ true
    → valid h.live cur ≡ true
    → is_fragment (h.kind cur) ≡ false
    → mem cur (xs ++ ys) ≡ false
    → h.prev cur ≡ null
    → h.next cur ≡ null
    → Returns (dom_add_node_to_list fuel cur (last_or null xs) (head_or ys null) h) (λ b g.
      (b ≡ true) × IsChildList g p (xs ++ cur ∷ ys) × SameElsewhere (p ∷ []) (xs ++ cur ∷ ys) h g)
dom_add_node_to_list-node fuel h p cur xs ys is ends vp vc kf out no_prev no_next =
    let g = record h { parent = update h.parent cur p } in
    let apart =
      Distinct-insert xs (cur ∷ []) ys is.distinct (refl, tt) (NoneIn-one cur (xs ++ ys) out) in
    let here : mem cur (xs ++ cur ∷ ys) ≡ true = ground (arith, mem-append cur xs (cur ∷ ys)) in
    Returns_of_eq
      (λ b k.
        (b ≡ true) × IsChildList k p (xs ++ cur ∷ ys) × SameElsewhere (p ∷ []) (xs ++ cur ∷ ys) h k)
      (dom_add_node_to_list-node_run fuel h p cur xs ys is.nodes is.owned ends vp vc kf out)
      (
        refl,
        spliced-IsChildList g p cur xs [] ys (IsChildList-parent h p cur (xs ++ ys) is)
            (no_prev, no_next, tt) (ground arith, tt) (vc, tt) apart,
        SameElsewhere-trans (SameElsewhere-parent _ _ h cur p here)
            (spliced-SameElsewhere g p cur xs [] ys),
      )
