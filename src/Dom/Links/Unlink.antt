-- ===== src/Dom/Links/Unlink.antt =====
-- domUnlinkNode takes a child out of its parent's list of children.
use perl_xml_lib_xml.Common.{
  ◌≡◌, refl, true, false, ◌||◌, List, [], ◌∷◌, ◌++◌, arith, ◌==◌, if◌then◌else◌, head_or, last_or,
  All, All-split, mem,
}
use perl_xml_lib_xml.Store.{Ptr, null, Store, update, valid}
use perl_xml_lib_xml.Store.Kinds.{is_dtd}
use perl_xml_lib_xml.Store.Outcome.{done}
use perl_xml_lib_xml.Store.Returns.{Returns, Returns_of_eq}
use perl_xml_lib_xml.Libxml.{Libxml}
use perl_xml_lib_xml.Dom.Links.{dom_unlink_node, is_detached, unlink_siblings, unlink_parent}
use perl_xml_lib_xml.Dom.Links.Chains.{
  SameElsewhere, update_ref, valid-ne_null, Linked, IsChildList, Linked-split, Linked-bridge,
  Distinct-without, All-without, All-mono, nodes-last, nodes-head, head_or-without, last_or-without,
  mem-null_nodes, mem-ne_sym, mem-append_false, ne-last_or, ne-head_or, if-update, update_ref-other,
  mem-last_or-null, mem-head_or-null,
}

-- A pointer that is NULL or may be followed.
abbrev pub IsRef : Store → Ptr → Type 0
IsRef h p = (valid h.live p || (p == null)) ≡ true

-- The store after unlink_siblings.
abbrev bridged : Store → Ptr → Store
bridged h n = record h {
  next = update_ref h.next (h.prev n) (h.next n);
  prev = update_ref h.prev (h.next n) (h.prev n);
}

unlink_siblings-bridged :
    (h : Store) (n : Ptr)
    → valid h.live n ≡ true
    → IsRef h (h.prev n)
    → IsRef h (h.next n)
    → unlink_siblings n h ≡ done tt (bridged h n)
unfolding unlink_siblings
unlink_siblings-bridged h n vn vp vx = ground arith

-- The parent's two pointers, where they named the node.
abbrev released : Store → Ptr → Ptr → Store
released h n p = record h {
  last = if n == h.last p then update h.last p (h.prev n) else h.last;
  children = if n == h.children p then update h.children p (h.next n) else h.children;
}

unlink_parent-released :
    (h : Store) (n : Ptr)
    → valid h.live n ≡ true
    → valid h.live (h.parent n) ≡ true
    → unlink_parent n h ≡ done tt (released h n (h.parent n))
unfolding unlink_parent
unlink_parent-released h n vn vp = ground (arith, valid-ne_null h.live (h.parent n))

is_detached-false :
    (h : Store) (n : Ptr)
    → valid h.live n ≡ true
    → valid h.live (h.parent n) ≡ true
    → is_detached n h ≡ done false h
unfolding is_detached
is_detached-false h n vn vp = ground (arith, valid-ne_null h.live (h.parent n))

-- The store in which `n`, a child of `p`, is unlinked.
abbrev pub unlinked : Store → Ptr → Store
unlinked h n =
    let g = released (bridged h n) n (h.parent n) in
    record g {
      prev = update g.prev n null;
      next = update g.next n null;
      parent = update g.parent n null;
    }

pub dom_unlink_node-unlinked :
    (lib : Libxml) (h : Store) (n : Ptr)
    → valid h.live n ≡ true
    → is_dtd (h.kind n) ≡ false
    → valid h.live (h.parent n) ≡ true
    → IsRef h (h.prev n)
    → IsRef h (h.next n)
    → dom_unlink_node lib n h ≡ done tt (unlinked h n)
unfolding dom_unlink_node
dom_unlink_node-unlinked lib h n vn kd vp vr vx = rw (
  valid-ne_null h.live n vn,
  is_detached-false h n vn vp,
  vn,
  kd,
  unlink_siblings-bridged h n vn vr vx,
  unlink_parent-released (bridged h n) n vn vp,
  vn,
  vn,
  vn,
)

abbrev pub IsDetached : Ptr → Store → Type 0
IsDetached n g = (g.parent n ≡ null) × (g.prev n ≡ null) × (g.next n ≡ null)

module _ (h : Store) (p n : Ptr) (xs ys : List Ptr) (is : IsChildList h p (xs ++ n ∷ ys)) where
  open is use {first, final, linked, owned, nodes, distinct}

  pub prev_lem : h.prev n ≡ last_or null xs
  prev_lem = (Linked-split h.next h.prev null null xs (n ∷ ys) linked).1.0

  pub next_lem : h.next n ≡ head_or ys null
  next_lem = (Linked-split h.next h.prev null null xs (n ∷ ys) linked).1.1

  pub parent_lem : h.parent n ≡ p
  parent_lem = (All-split (λ x. h.parent x ≡ p) xs (n ∷ ys) owned).1.0

  valid_lem : valid h.live n ≡ true
  valid_lem = (All-split (λ x. valid h.live x ≡ true) xs (n ∷ ys) nodes).1.0

  IsRef-prev : IsRef h (h.prev n)
  IsRef-prev =
      rw prev_lem
        (nodes-last h.live xs (All-split (λ x. valid h.live x ≡ true) xs (n ∷ ys) nodes).0)

  IsRef-next : IsRef h (h.next n)
  IsRef-next =
      rw next_lem
        (nodes-head h.live ys (All-split (λ x. valid h.live x ≡ true) xs (n ∷ ys) nodes).1.1)

  not_null : (n == null) ≡ false
  not_null = valid-ne_null h.live n valid_lem

  pub apart : (mem n xs ≡ false) × (mem n ys ≡ false)
  apart = mem-append_false n xs ys (Distinct-without n xs ys distinct).1

  pub prev-ne : (n == h.prev n) ≡ false
  prev-ne = rw prev_lem (ne-last_or n xs not_null apart.0)

  pub next-ne : (n == h.next n) ≡ false
  next-ne = rw next_lem (ne-head_or n ys not_null apart.1)

  unlinked-first : (unlinked h n).children p ≡ head_or (xs ++ ys) null
  unlinked-first =
      rw (parent_lem, if-update, update_ref-other h.next (h.prev n) (h.next n) n prev-ne, next_lem)
        (head_or-without n (h.children p) xs ys distinct first)

  unlinked-final : (unlinked h n).last p ≡ last_or null (xs ++ ys)
  unlinked-final =
      rw (parent_lem, if-update, update_ref-other h.prev (h.next n) (h.prev n) n next-ne, prev_lem)
        (last_or-without n (h.last p) xs ys distinct final)

  unlinked-Linked : Linked (unlinked h n).next (unlinked h n).prev null (xs ++ ys) null
  unlinked-Linked =
      rw (prev_lem, next_lem)
        (Linked-bridge h.next h.prev n xs ys (mem-null_nodes h.live _ nodes) distinct linked)

  unlinked-owned : All (λ x. (unlinked h n).parent x ≡ p) (xs ++ ys)
  unlinked-owned =
      All-mono (λ x. h.parent x ≡ p) _ (xs ++ ys) (All-without _ n xs ys owned)
        λ x i e. rw (mem-ne_sym x n (xs ++ ys) (Distinct-without n xs ys distinct).1 i) e

  unlinked-IsChildList : IsChildList (unlinked h n) p (xs ++ ys)
  unlinked-IsChildList = record {
    first = unlinked-first;
    final = unlinked-final;
    linked = unlinked-Linked;
    owned = unlinked-owned;
    nodes = All-without (λ x. valid h.live x ≡ true) n xs ys nodes;
    distinct = (Distinct-without n xs ys distinct).0;
  }

  -- A node outside of the list is none of those that are written.
  outside : (q : Ptr) → mem q (xs ++ n ∷ ys) ≡ false → (mem q xs ≡ false) × (mem q (n ∷ ys) ≡ false)
  outside q out = mem-append_false q xs (n ∷ ys) out

  unlinked-SameElsewhere : SameElsewhere (p ∷ []) (xs ++ n ∷ ys) h (unlinked h n)
  unlinked-SameElsewhere = record {
    next = λ q out.
        ground
          (arith, outside q out, prev_lem, mem-ne_sym (last_or null xs) q xs, mem-last_or-null xs);
    prev = λ q out.
        ground
          (arith, outside q out, next_lem, mem-ne_sym (head_or ys null) q ys, mem-head_or-null ys);
    parent = λ q out. ground (arith, outside q out);
    first = λ q ne. ground (arith, parent_lem);
    final = λ q ne. ground (arith, parent_lem);
    live = refl;
    kind = refl;
    doc = refl;
    ns = refl;
    properties = refl;
    others = refl;
  }

pub child-valid :
    (h : Store) (p n : Ptr) (xs ys : List Ptr)
    → IsChildList h p (xs ++ n ∷ ys)
    → valid h.live n ≡ true
child-valid = valid_lem

pub dom_unlink_node-run :
    (lib : Libxml) (h : Store) (p n : Ptr) (xs ys : List Ptr)
    → IsChildList h p (xs ++ n ∷ ys)
    → valid h.live p ≡ true
    → is_dtd (h.kind n) ≡ false
    → dom_unlink_node lib n h ≡ done tt (unlinked h n)
dom_unlink_node-run lib h p n xs ys is vp kd =
    dom_unlink_node-unlinked lib h n (valid_lem h p n xs ys is) kd
      (rw (parent_lem h p n xs ys is) vp) (IsRef-prev h p n xs ys is) (IsRef-next h p n xs ys is)

pub unlinked-facts :
    (h : Store) (p n : Ptr) (xs ys : List Ptr)
    → IsChildList h p (xs ++ n ∷ ys)
    → IsChildList (unlinked h n) p (xs ++ ys)
      × IsDetached n (unlinked h n)
      × SameElsewhere (p ∷ []) (xs ++ n ∷ ys) h (unlinked h n)
unlinked-facts h p n xs ys is = (
  unlinked-IsChildList h p n xs ys is,
  (ground arith, ground arith, ground arith),
  unlinked-SameElsewhere h p n xs ys is,
)

-- Let `xs ++ n ∷ ys` be the children of the node `p`, with all pointers among them in agreement, and `n`
-- no DTD. Then domUnlinkNode returns, the children of `p` are `xs ++ ys`, again with all pointers in
-- agreement, `n` has no parent and no siblings, and nothing changes at any node outside of the list
-- except the two child pointers of `p`.
pub dom_unlink_node-IsChildList :
    (lib : Libxml) (h : Store) (p n : Ptr) (xs ys : List Ptr)
    → IsChildList h p (xs ++ n ∷ ys)
    → valid h.live p ≡ true
    → is_dtd (h.kind n) ≡ false
    → Returns (dom_unlink_node lib n h) (λ _ g.
      IsChildList g p (xs ++ ys) × IsDetached n g × SameElsewhere (p ∷ []) (xs ++ n ∷ ys) h g)
dom_unlink_node-IsChildList lib h p n xs ys is vp kd =
    Returns_of_eq
      (λ _ g.
        IsChildList g p (xs ++ ys) × IsDetached n g × SameElsewhere (p ∷ []) (xs ++ n ∷ ys) h g)
      (dom_unlink_node-run lib h p n xs ys is vp kd) (unlinked-facts h p n xs ys is)
