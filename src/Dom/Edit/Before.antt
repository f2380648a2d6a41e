-- ===== src/Dom/Edit/Before.antt =====
-- domInsertBefore with a reference node.
use perl_xml_lib_xml.Common.{
  ℕ, suc, ◌+◌, ◌*◌, ◌<◌, ◌≡◌, refl, sym, true, false, ◌&&◌, Option, List, [], ◌∷◌, ◌++◌, arith,
  ◌==◌, head_or, last_or, length, mem, mem-append, All_mem, ==_refl,
}
use mathlib.Core.Path.{subst}
use perl_xml_lib_xml.Store.{Ptr, null, Str, Store, valid}
use perl_xml_lib_xml.Store.Kinds.{is_fragment, is_dtd}
use perl_xml_lib_xml.Store.Outcome.{done}
use perl_xml_lib_xml.Store.Returns.{Returns, Returns-after, Returns-mono}
use perl_xml_lib_xml.Libxml.{Libxml}
use perl_xml_lib_xml.Dom.Links.Chains.{
  IsChildList, SameElsewhere, NoneIn, NoneIn-sym, SameElsewhere-trans, Linked-split,
  Distinct-without, mem-ne_sym, mem-append_false, valid-ne_null,
}
use perl_xml_lib_xml.Dom.Links.Frames.{IsChildList-frame, SameElsewhere-mono, IsChildList-NoneIn}
use perl_xml_lib_xml.Dom.Links.Insert.{dom_add_node_to_list-node}
use perl_xml_lib_xml.Dom.Hierarchy.{may_hold}
use perl_xml_lib_xml.Dom.Links.Unlink.{unlinked, child-valid, unlinked-facts}
use perl_xml_lib_xml.Dom.Reconcile.Plain.{Forest, weight, nodes_of, IsPlainNode, IsPlainNode-moved}
use perl_xml_lib_xml.Dom.Edit.{insert_before, dom_insert_before, bad_reference}
use perl_xml_lib_xml.Dom.Edit.Append.{reconcile_moved-plain, bring-unlinked, mem-middle}
use perl_xml_lib_xml.Dom.Edit.Inserted.{
  mem-inserted_false, NoneIn-old, NoneIn-new, NoneIn-behind, mem-reordered, NoneIn-reordered,
}

-- `node` stands before `ref`, and the other nodes are as before.
abbrev pub Inserted : Store → Ptr → Ptr → Ptr → List Ptr → List Ptr → Store → Type 0
Inserted h self node ref xs ys g =
    IsChildList g self (xs ++ node ∷ ref ∷ ys)
    × SameElsewhere (self ∷ []) (xs ++ node ∷ ref ∷ ys) h g

module _ (lib : Libxml) (xml : Option Str) (fuel : ℕ) (h : Store) (self q node ref : Ptr)
    (us vs xs ys attrs : List Ptr) (kids : Forest) where
  -- What domInsertBefore does once `node` was taken out from between `us` and `vs`.
  insert_before-rest :
      IsChildList h q (us ++ node ∷ vs)
      → IsChildList (unlinked h node) self (xs ++ ref ∷ ys)
      → valid h.live self ≡ true
      → valid h.live q ≡ true
      → h.doc node ≡ h.doc self
      → may_hold fuel self node h ≡ done true h
      → is_dtd (h.kind node) ≡ false
      → is_fragment (h.kind node) ≡ false
      → mem node (xs ++ ref ∷ ys) ≡ false
      → IsPlainNode h node attrs kids
      → NoneIn (attrs ++ nodes_of kids) (self ∷ q ∷ ((xs ++ ref ∷ ys) ++ (us ++ node ∷ vs)))
      → mem node (self ∷ q ∷ []) ≡ false
      → 2 * suc (length attrs + weight kids) < fuel
      → Returns
          (insert_before lib xml fuel self node ref h)
          (λ r g. (r ≡ node) × Inserted (unlinked h node) self node ref xs ys g)
  unfolding insert_before
  insert_before-rest js is vself vq same_doc allowed kd kf out plain apart below enough =
      let g = unlinked h node in
      let freed = unlinked-facts h q node us vs js in
      let links = Linked-split g.next g.prev null null xs (ref ∷ ys) is.linked in
      let vref = child-valid g self ref xs ys is in
      let nref = valid-ne_null h.live ref vref in
      let ends : (last_or null xs == null && head_or (ref ∷ ys) null == null) ≡ false =
        ground (arith, nref) in
      let add =
        dom_add_node_to_list-node fuel g self node xs (ref ∷ ys) is ends vself plain.0 kf out
          freed.1.1 freed.1.2 in
      rw
        (
          allowed,
          bring-unlinked lib xml fuel h self q node us vs false js vself vq same_doc kd,
          plain.0,
          kf,
          nref,
          vref,
          links.1.0,
        )
        (Returns-after _ _
          (λ b k.
            (b ≡ true)
            × IsChildList k self (xs ++ node ∷ ref ∷ ys)
            × SameElsewhere (self ∷ []) (xs ++ node ∷ ref ∷ ys) g k)
          (λ r k. (r ≡ node) × Inserted g self node ref xs ys k) add
          λ b k post.
            let plain' =
              IsPlainNode-moved g k (self ∷ []) (xs ++ node ∷ ref ∷ ys) node attrs kids post.2
                (NoneIn-new (attrs ++ nodes_of kids) self q node xs (ref ∷ ys) us vs apart)
                (ground arith)
                (IsPlainNode-moved h g (q ∷ []) (us ++ node ∷ vs) node attrs kids freed.2
                  (NoneIn-old (attrs ++ nodes_of kids) self q node xs (ref ∷ ys) us vs apart)
                  (ground arith) plain) in
            rw (reconcile_moved-plain lib xml fuel k ref node attrs kids plain' enough)
              (refl, (post.1, post.2)))

  -- The tests at the head of domInsertBefore.
  dom_insert_before-allowed :
      valid h.live self ≡ true
      → valid h.live node ≡ true
      → valid h.live ref ≡ true
      → (ref == node) ≡ false
      → h.parent ref ≡ self
      → is_fragment (h.kind node) ≡ false
      → (h.children self == null) ≡ false
      → dom_insert_before lib xml fuel self node ref h ≡ insert_before lib xml fuel self node ref h
  unfolding dom_insert_before bad_reference
  dom_insert_before-allowed vself vnode vref ne up kf some_child = rw (
    ne,
    valid-ne_null h.live self vself,
    valid-ne_null h.live node vnode,
    valid-ne_null h.live ref vref,
    vref,
    vnode,
    vnode,
    up,
    ==_refl self,
    kf,
    vself,
    some_child,
  )

-- Some child of a node with a child.
first-ne_null :
    (h : Store) (p r : Ptr) (xs ys : List Ptr)
    → IsChildList h p (xs ++ r ∷ ys)
    → (h.children p == null) ≡ false
first-ne_null h p r [] ys is = rw is.first (valid-ne_null h.live r is.nodes.0)
first-ne_null h p r (x ∷ xs) ys is = rw is.first (valid-ne_null h.live x is.nodes.0)

-- Let `us ++ node ∷ vs` be the children of `q`, and `xs ++ ref ∷ ys` those of another node `self` of
-- the same document. Let the hierarchy allow `node` under `self`, let `node` be neither a fragment nor a
-- DTD, and let neither `node`, its attributes nor its descendants have a namespace. With more fuel than
-- twice the size of the subtree, domInsertBefore(self, node, ref) returns `node`; then the children of
-- `self` are `xs`, `node`, `ref` and `ys`, those of `q` are `us ++ vs`, all pointers among them agree,
-- and no other node changes.
pub dom_insert_before-move :
    (lib : Libxml) (xml : Option Str) (fuel : ℕ) (h : Store) (self q node ref : Ptr)
    (us vs xs ys attrs : List Ptr) (kids : Forest)
    → IsChildList h self (xs ++ ref ∷ ys)
    → IsChildList h q (us ++ node ∷ vs)
    → valid h.live self ≡ true
    → valid h.live q ≡ true
    → (self == q) ≡ false
    → h.doc node ≡ h.doc self
    → may_hold fuel self node h ≡ done true h
    → is_dtd (h.kind node) ≡ false
    → is_fragment (h.kind node) ≡ false
    → IsPlainNode h node attrs kids
    → NoneIn (attrs ++ nodes_of kids) (self ∷ q ∷ ((xs ++ ref ∷ ys) ++ (us ++ node ∷ vs)))
    → mem node (self ∷ q ∷ []) ≡ false
    → 2 * suc (length attrs + weight kids) < fuel
    → Returns (dom_insert_before lib xml fuel self node ref h) (λ r g.
      (r ≡ node)
      × IsChildList g self (xs ++ node ∷ ref ∷ ys)
      × IsChildList g q (us ++ vs)
      × SameElsewhere (self ∷ q ∷ []) ((xs ++ ref ∷ ys) ++ (us ++ node ∷ vs)) h g)
dom_insert_before-move lib xml fuel h self q node ref us vs xs ys attrs kids is js vself vq ne
      same_doc allowed kd kf plain apart below enough =
    let g = unlinked h node in
    let freed = unlinked-facts h q node us vs js in
    let clash = IsChildList-NoneIn h self q (xs ++ ref ∷ ys) (us ++ node ∷ vs) ne is js in
    let is' =
      IsChildList-frame h g (q ∷ []) (us ++ node ∷ vs) self (xs ++ ref ∷ ys) freed.2 clash
        (ground arith) is in
    let out = NoneIn-sym (xs ++ ref ∷ ys) (us ++ node ∷ vs) clash node (mem-middle node us vs) in
    let here = mem-middle ref xs ys in
    let other : (ref == node) ≡ false = mem-ne_sym ref node (xs ++ ref ∷ ys) out here in
    let up : h.parent ref ≡ self =
      All_mem (λ x. h.parent x ≡ self) ref (xs ++ ref ∷ ys) is.owned here in
    let go =
      insert_before-rest lib xml fuel h self q node ref us vs xs ys attrs kids js is' vself vq
        same_doc allowed kd kf out plain apart below enough in
    let begin =
      dom_insert_before-allowed lib xml fuel h self q node ref us vs xs ys attrs kids vself plain.0
        (child-valid h self ref xs ys is) other up kf (first-ne_null h self ref xs ys is) in
    rw begin (
      Returns-mono _ (λ r k. (r ≡ node) × Inserted g self node ref xs ys k) _ go
        λ r k post. (
          post.0,
          post.1.0,
          IsChildList-frame g k (self ∷ []) (xs ++ node ∷ ref ∷ ys) q (us ++ vs) post.1.1
              (NoneIn-behind node xs (ref ∷ ys) us vs clash js.distinct) (ground arith) freed.0,
          SameElsewhere-trans
              (SameElsewhere-mono (q ∷ []) (us ++ node ∷ vs) (self ∷ q ∷ [])
                ((xs ++ ref ∷ ys) ++ (us ++ node ∷ vs)) freed.2 (λ a o. ground arith)
                (λ a o. (mem-append_false a (xs ++ ref ∷ ys) (us ++ node ∷ vs) o).1))
              (SameElsewhere-mono (self ∷ []) (xs ++ node ∷ ref ∷ ys) (self ∷ q ∷ [])
                ((xs ++ ref ∷ ys) ++ (us ++ node ∷ vs)) post.1.1 (λ a o. ground arith)
                (λ a o. mem-inserted_false a node xs (ref ∷ ys) us vs o)),
        ))

-- Let `us ++ node ∷ vs` be the children of `self`, and `us ++ vs` the same as `xs ++ ref ∷ ys`. Let the
-- hierarchy allow `node` under `self`, let `node` be neither a fragment nor a DTD, and let neither
-- `node`, its attributes nor its descendants have a namespace. With more fuel than twice the size of
-- the subtree, domInsertBefore(self, node, ref) returns `node`; then the children of `self` are `xs`,
-- `node`, `ref` and `ys`, all pointers among them agree, and no other node changes.
pub dom_insert_before-reorder :
    (lib : Libxml) (xml : Option Str) (fuel : ℕ) (h : Store) (self node ref : Ptr)
    (us vs xs ys attrs : List Ptr) (kids : Forest)
    → IsChildList h self (us ++ node ∷ vs)
    → us ++ vs ≡ xs ++ ref ∷ ys
    → valid h.live self ≡ true
    → h.doc node ≡ h.doc self
    → may_hold fuel self node h ≡ done true h
    → is_dtd (h.kind node) ≡ false
    → is_fragment (h.kind node) ≡ false
    → IsPlainNode h node attrs kids
    → NoneIn (attrs ++ nodes_of kids) (self ∷ (us ++ node ∷ vs))
    → (node == self) ≡ false
    → 2 * suc (length attrs + weight kids) < fuel
    → Returns (dom_insert_before lib xml fuel self node ref h) (λ r g.
      (r ≡ node)
      × IsChildList g self (xs ++ node ∷ ref ∷ ys)
      × SameElsewhere (self ∷ []) (us ++ node ∷ vs) h g)
dom_insert_before-reorder lib xml fuel h self node ref us vs xs ys attrs kids js same vself same_doc
      allowed kd kf plain apart below enough =
    let g = unlinked h node in
    let freed = unlinked-facts h self node us vs js in
    let is' : IsChildList g self (xs ++ ref ∷ ys) =
      subst (λ zs. IsChildList g self zs) same freed.0 in
    let out : mem node (xs ++ ref ∷ ys) ≡ false =
      subst (λ zs. mem node zs ≡ false) same (Distinct-without node us vs js.distinct).1 in
    let here = mem-middle ref xs ys in
    let other : (ref == node) ≡ false = mem-ne_sym ref node (xs ++ ref ∷ ys) out here in
    let among : mem ref (us ++ node ∷ vs) ≡ true =
      let before : mem ref (us ++ vs) ≡ true = subst (λ zs. mem ref zs ≡ true) (sym same) here in
      ground (arith, mem-append ref us vs, mem-append ref us (node ∷ vs)) in
    let up : h.parent ref ≡ self =
      All_mem (λ x. h.parent x ≡ self) ref (us ++ node ∷ vs) js.owned among in
    let apart' =
      NoneIn-reordered (attrs ++ nodes_of kids) self node us vs xs (ref ∷ ys) same apart in
    let go =
      insert_before-rest lib xml fuel h self self node ref us vs xs ys attrs kids js is' vself vself
        same_doc allowed kd kf out plain apart' (ground arith) enough in
    let begin =
      dom_insert_before-allowed lib xml fuel h self self node ref us vs xs ys attrs kids vself
        plain.0 (child-valid g self ref xs ys is') other up kf
        (first-ne_null h self node us vs js) in
    rw begin (
      Returns-mono _ (λ r k. (r ≡ node) × Inserted g self node ref xs ys k) _ go
        λ r k post. (
          post.0,
          post.1.0,
          SameElsewhere-trans freed.2 (
              SameElsewhere-mono (self ∷ []) (xs ++ node ∷ ref ∷ ys) (self ∷ []) (us ++ node ∷ vs)
                post.1.1 (λ a o. o)
                (λ a o. rw (← mem-reordered a node us vs xs (ref ∷ ys) same) o)),
        ))
