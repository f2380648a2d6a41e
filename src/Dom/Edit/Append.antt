-- ===== src/Dom/Edit/Append.antt =====
-- domAppendChild.
use perl_xml_lib_xml.Common.{
  ℕ, suc, ◌+◌, ◌*◌, ◌<◌, ◌≡◌, refl, sym, Bool, true, false, Option, List, [], ◌∷◌, ◌++◌, arith,
  ◌==◌, length, mem, mem-append, Distinct, Bool-cases, inl, inr, ==_refl,
}
use mathlib.Core.Path.{subst}
use mathlib.Core.List.{append-nil}
use perl_xml_lib_xml.Store.{Ptr, null, Str, Store, valid}
use perl_xml_lib_xml.Store.Kinds.{is_fragment, is_dtd, is_entity_ref}
use perl_xml_lib_xml.Store.Outcome.{done}
use perl_xml_lib_xml.Store.Returns.{Returns, Returns-after}
use perl_xml_lib_xml.Libxml.{Libxml}
use perl_xml_lib_xml.Dom.Links.Chains.{
  IsChildList, SameElsewhere, NoneIn, NoneIn-sym, SameElsewhere-trans, Distinct-without, mem-ne_sym,
  mem-append_false, valid-ne_null, last_or-ne_null, mem-null_nodes,
}
use perl_xml_lib_xml.Dom.Links.Frames.{IsChildList-frame, SameElsewhere-mono, IsChildList-NoneIn}
use perl_xml_lib_xml.Dom.Links.Insert.{dom_add_node_to_list-node}
use perl_xml_lib_xml.Dom.Hierarchy.{may_hold}
use perl_xml_lib_xml.Dom.Links.Unlink.{unlinked, child-valid, dom_unlink_node-run, unlinked-facts}
use perl_xml_lib_xml.Dom.Reconcile.Plain.{
  Forest, weight, nodes_of, IsPlainNode, dom_reconcile_ns-plain, IsPlainNode-moved,
}
use perl_xml_lib_xml.Dom.Edit.{place_child, bring, reconcile_moved, dom_append_child}

-- `node` is the last child of `self` after `xs`, and the other nodes are as before.
abbrev Placed : Store → Ptr → Ptr → List Ptr → Ptr → Store → Type 0
Placed h self node xs f g =
    (f ≡ null)
    × IsChildList g self (xs ++ node ∷ [])
    × SameElsewhere (self ∷ []) (xs ++ node ∷ []) h g

abbrev Added : Store → Ptr → Ptr → List Ptr → Bool → Store → Type 0
Added h self node xs b g =
    (b ≡ true)
    × IsChildList g self (xs ++ node ∷ [])
    × SameElsewhere (self ∷ []) (xs ++ node ∷ []) h g

-- A node that is no fragment becomes the last child.
place_child-node :
    (fuel : ℕ) (h : Store) (self node : Ptr) (xs : List Ptr)
    → IsChildList h self xs
    → valid h.live self ≡ true
    → valid h.live node ≡ true
    → is_fragment (h.kind node) ≡ false
    → mem node xs ≡ false
    → h.prev node ≡ null
    → h.next node ≡ null
    → Returns (place_child fuel self node h) (Placed h self node xs)
unfolding place_child
place_child-node fuel h self node [] is vs vn kf out no_prev no_next =
    rw (vs, vn, is.first, kf, vs, vs, vn)
      (
        refl,
        record {
          first = ground arith;
          final = ground arith;
          linked = (no_prev, no_next, tt);
          owned = (ground arith, tt);
          nodes = (vn, tt);
          distinct = (refl, tt);
        },
        record {
          next = λ q o. refl;
          prev = λ q o. refl;
          parent = λ q o. ground arith;
          first = λ q o. ground arith;
          final = λ q o. ground arith;
          live = refl;
          kind = refl;
          doc = refl;
          ns = refl;
          properties = refl;
          others = refl;
        },
      )
place_child-node fuel h self node (x ∷ xs) is vs vn kf out no_prev no_next =
    let same = append-nil (x ∷ xs) in
    let add =
      dom_add_node_to_list-node fuel h self node (x ∷ xs) []
        (subst (IsChildList h self) (sym same) is)
        (rw (last_or-ne_null x xs (mem-null_nodes h.live (x ∷ xs) is.nodes))) vs vn kf
        (subst (λ zs. mem node zs ≡ false) (sym same) out) no_prev no_next in
    rw (vs, vn, is.first, valid-ne_null h.live x is.nodes.0, kf, vs, is.final)
      (Returns-after _ _ (Added h self node (x ∷ xs)) (Placed h self node (x ∷ xs)) add
        (λ b g post. (refl, post.1, post.2)))

-- Reconciling a subtree without namespaces is nothing.
pub reconcile_moved-plain :
    (lib : Libxml) (xml : Option Str) (fuel : ℕ) (h : Store) (stop node : Ptr) (attrs : List Ptr)
    (kids : Forest)
    → IsPlainNode h node attrs kids
    → 2 * suc (length attrs + weight kids) < fuel
    → reconcile_moved lib xml fuel null stop node h ≡ done tt h
unfolding reconcile_moved
reconcile_moved-plain lib xml fuel h stop node attrs kids is enough =
    elim (Bool-cases (is_entity_ref (h.kind node))) [
      | inl e ↦ rw (is.0, e)
      | inr e ↦ rw (is.0, e, dom_reconcile_ns-plain lib xml fuel h node attrs kids is enough)
    ]

pub bring-unlinked :
    (lib : Libxml) (xml : Option Str) (fuel : ℕ) (h : Store) (self q node : Ptr) (us vs : List Ptr)
    (reconcile : Bool)
    → IsChildList h q (us ++ node ∷ vs)
    → valid h.live self ≡ true
    → valid h.live q ≡ true
    → h.doc node ≡ h.doc self
    → is_dtd (h.kind node) ≡ false
    → bring lib xml fuel self node reconcile h ≡ done node (unlinked h node)
unfolding bring
bring-unlinked lib xml fuel h self q node us vs reconcile is vself vq same_doc kd = rw (
  child-valid h q node us vs is,
  vself,
  same_doc,
  ==_refl (h.doc self),
  dom_unlink_node-run lib h q node us vs is vq kd,
)

pub mem-middle : (n : Ptr) (us vs : List Ptr) → mem n (us ++ n ∷ vs) ≡ true
mem-middle n us vs = ground (arith, mem-append n us (n ∷ vs))

-- The siblings that stay behind are neither among the new siblings nor the node itself.
pub NoneIn-rest :
    (n : Ptr) (xs us vs : List Ptr)
    → NoneIn xs (us ++ n ∷ vs)
    → Distinct (us ++ n ∷ vs)
    → NoneIn (us ++ vs) (xs ++ n ∷ [])
NoneIn-rest n xs us vs clash apart a i =
    let ne = mem-ne_sym a n (us ++ vs) (Distinct-without n us vs apart).1 i in
    ground (arith, clash a, mem-append a us vs, mem-append a us (n ∷ vs), mem-append a xs (n ∷ []))

Placed-same :
    (h : Store) (self q node : Ptr) (xs us vs : List Ptr) (f : Ptr) (k : Store)
    → SameElsewhere (q ∷ []) (us ++ node ∷ vs) h (unlinked h node)
    → Placed (unlinked h node) self node xs f k
    → SameElsewhere (self ∷ q ∷ []) (xs ++ (us ++ node ∷ vs)) h k
Placed-same h self q node xs us vs f k s post =
    let all = xs ++ (us ++ node ∷ vs) in
    SameElsewhere-trans
      (SameElsewhere-mono (q ∷ []) (us ++ node ∷ vs) (self ∷ q ∷ []) all s (λ r o. ground arith)
        (λ r o. (mem-append_false r xs (us ++ node ∷ vs) o).1))
      (SameElsewhere-mono (self ∷ []) (xs ++ node ∷ []) (self ∷ q ∷ []) all post.2
        (λ r o. ground arith)
        (λ r o. ground (
          arith,
          mem-append r xs (us ++ node ∷ vs),
          mem-append r us (node ∷ vs),
          mem-append r xs (node ∷ []),
        )))

-- Let `us ++ node ∷ vs` be the children of `q`, and `xs` those of another node `self` of the same
-- document. Let the hierarchy allow `node` under `self`, let `node` be neither a fragment nor a DTD, and
-- let neither `node`, its attributes nor its descendants have a namespace. With more fuel than twice the
-- size of the subtree, domAppendChild(self, node) returns `node`; then the children of `self` are `xs`
-- and `node`, those of `q` are `us ++ vs`, all pointers among them agree, and no other node changes.
pub dom_append_child-move :
    (lib : Libxml) (xml : Option Str) (fuel : ℕ) (h : Store) (self q node : Ptr)
    (xs us vs attrs : List Ptr) (kids : Forest)
    → IsChildList h self xs
    → IsChildList h q (us ++ node ∷ vs)
    → valid h.live self ≡ true
    → valid h.live q ≡ true
    → (self == q) ≡ false
    → h.doc node ≡ h.doc self
    → may_hold fuel self node h ≡ done true h
    → is_dtd (h.kind node) ≡ false
    → is_fragment (h.kind node) ≡ false
    → IsPlainNode h node attrs kids
    → NoneIn (attrs ++ nodes_of kids) (self ∷ q ∷ (xs ++ (us ++ node ∷ vs)))
    → mem node (self ∷ q ∷ []) ≡ false
    → 2 * suc (length attrs + weight kids) < fuel
    → Returns (dom_append_child lib xml fuel self node h) (λ r g.
      (r ≡ node)
      × IsChildList g self (xs ++ node ∷ [])
      × IsChildList g q (us ++ vs)
      × SameElsewhere (self ∷ q ∷ []) (xs ++ (us ++ node ∷ vs)) h g)
unfolding dom_append_child
dom_append_child-move lib xml fuel h self q node xs us vs attrs kids is js vself vq ne same_doc
      allowed kd kf plain apart below enough =
    let g = unlinked h node in
    let freed = unlinked-facts h q node us vs js in
    let clash = IsChildList-NoneIn h self q xs (us ++ node ∷ vs) ne is js in
    let is' =
      IsChildList-frame h g (q ∷ []) (us ++ node ∷ vs) self xs freed.2 clash (ground arith) is in
    let here = mem-middle node us vs in
    let out = NoneIn-sym xs (us ++ node ∷ vs) clash node here in
    let apart' = NoneIn-rest node xs us vs clash js.distinct in
    rw
      (
        valid-ne_null h.live self vself,
        allowed,
        bring-unlinked lib xml fuel h self q node us vs false js vself vq same_doc kd,
      )
      (Returns-after _ _ (Placed g self node xs) _
        (place_child-node fuel g self node xs is' vself plain.0 kf out freed.1.1 freed.1.2)
        λ f k post.
          let same = Placed-same h self q node xs us vs f k freed.2 post in
          let plain' =
            IsPlainNode-moved h k (self ∷ q ∷ []) (xs ++ (us ++ node ∷ vs)) node attrs kids same
              apart below plain in
          rw (post.0, reconcile_moved-plain lib xml fuel k null node attrs kids plain' enough)
            (
              refl,
              post.1,
              IsChildList-frame g k (self ∷ []) (xs ++ node ∷ []) q (us ++ vs) post.2 apart'
                  (ground arith) freed.0,
              same,
            ))
