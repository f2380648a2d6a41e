-- ===== src/Dom/Edit/Replace.antt =====
-- domReplaceChild on one of several children.
use perl_xml_lib_xml.Common.{
  ℕ, suc, ◌+◌, ◌*◌, ◌<◌, ◌≡◌, ◌∙◌, refl, sym, true, false, ◌&&◌, Option, List, [], ◌∷◌, ◌++◌, arith,
  ◌==◌, head_or, last_or, length, mem, mem-append, Distinct,
}
use mathlib.Core.Path.{subst}
use perl_xml_lib_xml.Store.{Ptr, null, Str, Store, valid}
use perl_xml_lib_xml.Store.Kinds.{is_fragment, is_dtd}
use perl_xml_lib_xml.Store.Outcome.{done}
use perl_xml_lib_xml.Store.Returns.{Returns}
use perl_xml_lib_xml.Libxml.{Libxml}
use perl_xml_lib_xml.Dom.Links.Chains.{
  IsChildList, SameElsewhere, NoneIn, NoneIn-sym, SameElsewhere-trans, All-without,
  Distinct-without, mem-ne, mem-ne_sym, mem-append_false, valid-ne_null,
}
use perl_xml_lib_xml.Dom.Links.Frames.{IsChildList-frame, SameElsewhere-mono, IsChildList-NoneIn}
use perl_xml_lib_xml.Dom.Links.Insert.{dom_add_node_to_list-node, dom_add_node_to_list-node_run}
use perl_xml_lib_xml.Dom.Links.Swap.{swapped, swapped-unlinked, not_only}
use perl_xml_lib_xml.Dom.Links.Unlink.{
  unlinked, unlinked-facts, child-valid, IsDetached, prev_lem, next_lem,
}
use perl_xml_lib_xml.Dom.Hierarchy.{may_hold}
use perl_xml_lib_xml.Dom.Reconcile.Plain.{Forest, weight, nodes_of, IsPlainNode, IsPlainNode-moved}
use perl_xml_lib_xml.Dom.Edit.{swap_child, dom_replace_child}
use perl_xml_lib_xml.Dom.Edit.Inserted.{mem-inserted}
use perl_xml_lib_xml.Dom.Edit.Append.{
  reconcile_moved-plain, bring-unlinked, mem-middle, NoneIn-rest,
}

mem-without :
    (a n : Ptr) (xs ys : List Ptr) → mem a (xs ++ n ∷ ys) ≡ false → mem a (xs ++ ys) ≡ false
mem-without a n xs ys out = ground (arith, mem-append a xs ys, mem-append a xs (n ∷ ys))

-- The child that was replaced is not in the new list.
mem-replaced :
    (old node : Ptr) (xs ys : List Ptr)
    → mem old (xs ++ ys) ≡ false
    → (old == node) ≡ false
    → mem old (xs ++ node ∷ ys) ≡ false
mem-replaced old node xs ys out ne = ground (arith, mem-inserted old node xs ys)

-- What is outside of the old list and not the new node is outside of the new list.
mem-new_list :
    (a node old : Ptr) (xs ys : List Ptr)
    → mem a (node ∷ (xs ++ old ∷ ys)) ≡ false
    → mem a (xs ++ node ∷ ys) ≡ false
mem-new_list a node old xs ys out =
    let before = mem-without a old xs ys in
    mem-replaced a node xs ys (before (ground arith)) (ground arith)

mem-both :
    (a node : Ptr) (zs us vs : List Ptr)
    → mem a (zs ++ (us ++ node ∷ vs)) ≡ false
    → mem a (node ∷ zs) ≡ false
mem-both a node zs us vs out =
    ground (arith, mem-append a zs (us ++ node ∷ vs), mem-append a us (node ∷ vs))

-- The siblings that stay behind are neither the node nor in the list of the other parent.
NoneIn-left :
    (node : Ptr) (zs us vs : List Ptr)
    → NoneIn zs (us ++ node ∷ vs)
    → Distinct (us ++ node ∷ vs)
    → NoneIn (us ++ vs) (node ∷ zs)
NoneIn-left node zs us vs clash apart a i =
    let rest = NoneIn-rest node zs us vs clash apart a i in
    ground (arith, mem-append a zs (node ∷ []))

-- `node` stands in the place of `old`, which has neither parent nor siblings.
abbrev Replaced : Store → Ptr → Ptr → Ptr → List Ptr → List Ptr → Store → Type 0
Replaced h self node old xs ys g =
    IsChildList g self (xs ++ node ∷ ys)
    × IsDetached old g
    × SameElsewhere (self ∷ []) (node ∷ (xs ++ old ∷ ys)) h g

module _ (h : Store) (self node old : Ptr) (xs ys : List Ptr)
    (is : IsChildList h self (xs ++ old ∷ ys))
    (ends : (last_or null xs == null && head_or ys null == null) ≡ false)
    (vself : valid h.live self ≡ true) (vnode : valid h.live node ≡ true)
    (kf : is_fragment (h.kind node) ≡ false) (out : mem node (xs ++ old ∷ ys) ≡ false) where
  still_out : mem node (xs ++ ys) ≡ false
  still_out = mem-without node old xs ys out

  swap_child-run :
      (lib : Libxml) (xml : Option Str) (fuel : ℕ)
      → swap_child lib xml fuel self node old h ≡ done tt (swapped h self node old)
  unfolding swap_child
  swap_child-run lib xml fuel =
      let vold = child-valid h self old xs ys is in
      let nodes = All-without (λ x. valid h.live x ≡ true) old xs ys is.nodes in
      let owned = All-without (λ x. h.parent x ≡ self) old xs ys is.owned in
      let among = still_out in
      rw (
        vself,
        vself,
        vnode,
        vnode,
        not_only h self old xs ys is ends,
        kf,
        vold,
        vold,
        prev_lem h self old xs ys is,
        next_lem h self old xs ys is,
        dom_add_node_to_list-node_run fuel h self node xs ys nodes owned ends vself vnode kf among,
        vold,
        vold,
        vold,
      )

  swapped-Replaced :
      h.prev node ≡ null
      → h.next node ≡ null
      → Replaced h self node old xs ys (swapped h self node old)
  swapped-Replaced no_prev no_next =
      let g = unlinked h old in
      let freed = unlinked-facts h self old xs ys is in
      let added =
        subst
          (λ r. Returns r λ b k.
            (b ≡ true)
            × IsChildList k self (xs ++ node ∷ ys)
            × SameElsewhere (self ∷ []) (xs ++ node ∷ ys) g k)
          (dom_add_node_to_list-node_run 0 g self node xs ys freed.0.nodes freed.0.owned ends vself
            vnode kf still_out)
          (dom_add_node_to_list-node 0 g self node xs ys freed.0 ends vself vnode kf still_out
            (freed.2.prev node out ∙ no_prev) (freed.2.next node out ∙ no_next)) in
      let gone : mem old (xs ++ node ∷ ys) ≡ false =
        mem-replaced old node xs ys (Distinct-without old xs ys is.distinct).1
          (mem-ne_sym old node (xs ++ old ∷ ys) out (mem-middle old xs ys)) in
      subst (λ k. Replaced h self node old xs ys k)
        (sym (swapped-unlinked h self old xs ys is node out))
        (
          added.1,
          (
            added.2.parent old gone ∙ freed.1.0,
            added.2.prev old gone ∙ freed.1.1,
            added.2.next old gone ∙ freed.1.2,
          ),
          SameElsewhere-trans
              (SameElsewhere-mono (self ∷ []) (xs ++ old ∷ ys) (self ∷ []) (node ∷ (xs ++ old ∷ ys))
                freed.2 (λ a o. o) (λ a o. ground arith))
              (SameElsewhere-mono (self ∷ []) (xs ++ node ∷ ys) (self ∷ [])
                (node ∷ (xs ++ old ∷ ys)) added.2 (λ a o. o)
                (λ a o. mem-new_list a node old xs ys o)),
        )

-- Let `us ++ node ∷ vs` be the children of `q`, and `xs ++ old ∷ ys` those of another node `self` of
-- the same document, of which `old` is not the only one. Let the hierarchy allow `node` under `self`, let
-- `node` be neither a fragment nor a DTD, and let neither `node`, its attributes nor its descendants have
-- a namespace. With more fuel than twice the size of the subtree, domReplaceChild(self, node, old) returns
-- `old`, which then has neither parent nor siblings; the children of `self` are `xs`, `node` and `ys`,
-- those of `q` are `us ++ vs`, all pointers among them agree, and no other node changes.
pub dom_replace_child-move :
    (lib : Libxml) (xml : Option Str) (fuel : ℕ) (h : Store) (self q node old : Ptr)
    (us vs xs ys attrs : List Ptr) (kids : Forest)
    → IsChildList h self (xs ++ old ∷ ys)
    → IsChildList h q (us ++ node ∷ vs)
    → (last_or null xs == null && head_or ys null == null) ≡ false
    → valid h.live self ≡ true
    → valid h.live q ≡ true
    → (self == q) ≡ false
    → h.doc node ≡ h.doc self
    → may_hold fuel self node h ≡ done true h
    → is_dtd (h.kind node) ≡ false
    → is_fragment (h.kind node) ≡ false
    → IsPlainNode h node attrs kids
    → NoneIn (attrs ++ nodes_of kids) (self ∷ q ∷ ((xs ++ old ∷ ys) ++ (us ++ node ∷ vs)))
    → mem node (self ∷ q ∷ []) ≡ false
    → 2 * suc (length attrs + weight kids) < fuel
    → Returns (dom_replace_child lib xml fuel self node old h) (λ r g.
      (r ≡ old)
      × IsDetached old g
      × IsChildList g self (xs ++ node ∷ ys)
      × IsChildList g q (us ++ vs)
      × SameElsewhere (self ∷ q ∷ []) ((xs ++ old ∷ ys) ++ (us ++ node ∷ vs)) h g)
unfolding dom_replace_child
dom_replace_child-move lib xml fuel h self q node old us vs xs ys attrs kids is js ends vself vq ne
      same_doc allowed kd kf plain apart below enough =
    let elsewhere : mem q (self ∷ []) ≡ false = ground arith in
    let g = unlinked h node in
    let zs = (xs ++ old ∷ ys) ++ (us ++ node ∷ vs) in
    let freed = unlinked-facts h q node us vs js in
    let clash = IsChildList-NoneIn h self q (xs ++ old ∷ ys) (us ++ node ∷ vs) ne is js in
    let is' =
      IsChildList-frame h g (q ∷ []) (us ++ node ∷ vs) self (xs ++ old ∷ ys) freed.2 clash
        (ground arith) is in
    let out = NoneIn-sym (xs ++ old ∷ ys) (us ++ node ∷ vs) clash node (mem-middle node us vs) in
    let other = mem-ne node old (xs ++ old ∷ ys) out (mem-middle old xs ys) in
    let (child, loose, near) =
      swapped-Replaced g self node old xs ys is' ends vself plain.0 kf out freed.1.1 freed.1.2 in
    let k = swapped g self node old in
    let same : SameElsewhere (self ∷ q ∷ []) zs h k =
      SameElsewhere-trans
        (SameElsewhere-mono (q ∷ []) (us ++ node ∷ vs) (self ∷ q ∷ []) zs freed.2
          (λ a o. ground arith)
          (λ a o. (mem-append_false a (xs ++ old ∷ ys) (us ++ node ∷ vs) o).1))
        (SameElsewhere-mono (self ∷ []) (node ∷ (xs ++ old ∷ ys)) (self ∷ q ∷ []) zs near
          (λ a o. ground arith) (λ a o. mem-both a node (xs ++ old ∷ ys) us vs o)) in
    let plain' = IsPlainNode-moved h k (self ∷ q ∷ []) zs node attrs kids same apart below plain in
    rw
      (
        valid-ne_null h.live self vself,
        other,
        valid-ne_null h.live node plain.0,
        valid-ne_null h.live old (child-valid h self old xs ys is),
        allowed,
        bring-unlinked lib xml fuel h self q node us vs true js vself vq same_doc kd,
        swap_child-run g self node old xs ys is' ends vself plain.0 kf out lib xml fuel,
        reconcile_moved-plain lib xml fuel k null node attrs kids plain' enough,
      )
      (
        refl,
        loose,
        child,
        IsChildList-frame g k (self ∷ []) (node ∷ (xs ++ old ∷ ys)) q (us ++ vs) near
            (NoneIn-left node (xs ++ old ∷ ys) us vs clash js.distinct) elsewhere freed.0,
        same,
      )
