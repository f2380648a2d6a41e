-- ===== src/Dom/Links/Swap.antt =====
-- domAddNodeToList with the neighbours of a child, which the node replaces (domReplaceChild, dom.c).
use perl_xml_lib_xml.Common.{
  ◌≡◌, refl, false, ◌&&◌, List, [], ◌∷◌, ◌++◌, arith, ◌==◌, head_or, last_or, mem, last_or-append,
  Bool-cases, inl, inr,
}
use mathlib.Core.Path.{fun_ext}
use perl_xml_lib_xml.Store.{Ptr, null, Store, update}
use perl_xml_lib_xml.Dom.Links.Splice.{spliced_next, spliced_prev}
use perl_xml_lib_xml.Dom.Links.Chains.{
  Links, update_ref, IsChildList, mem-ne, mem-last_or, mem-append_false,
}
use perl_xml_lib_xml.Dom.Links.Insert.{spliced}
use perl_xml_lib_xml.Dom.Links.Unlink.{
  unlinked, prev_lem, next_lem, parent_lem, prev-ne, next-ne, apart,
}

-- The store with the links of its nodes replaced.
abbrev with_nodes : Store → Links → Links → Links → Links → Links → Store
with_nodes h next prev parent children last = record h {
  next = next;
  prev = prev;
  parent = parent;
  children = children;
  last = last;
}

-- The store once `cur` stands in the place of `old`, which has lost its own links.
abbrev pub swapped : Store → Ptr → Ptr → Ptr → Store
swapped h p cur old =
    let g =
      spliced (record h { parent = update h.parent cur p }) p (h.prev old) (h.next old) cur cur in
    record g {
      prev = update g.prev old null;
      next = update g.next old null;
      parent = update g.parent old null;
    }

-- The link fields of the two orders of writes are the same.
swapped-next :
    (f : Links) (old leader followup cur q : Ptr)
    → (cur == old) ≡ false
    → (old == leader) ≡ false
    → update (spliced_next f leader followup cur cur) old null q
      ≡ spliced_next (update (update_ref f leader followup) old null) leader followup cur cur q
swapped-next f old leader followup cur q ne left = elim (Bool-cases (leader == null)) [
  | inl e ↦ rw e (ground arith)
  | inr e ↦ rw e (ground arith)
]

swapped-prev :
    (f : Links) (old leader followup cur q : Ptr)
    → (cur == old) ≡ false
    → (old == followup) ≡ false
    → update (spliced_prev f leader followup cur cur) old null q
      ≡ spliced_prev (update (update_ref f followup leader) old null) leader followup cur cur q
swapped-prev f old leader followup cur q ne right = elim (Bool-cases (followup == null)) [
  | inl e ↦ rw e (ground arith)
  | inr e ↦ rw e (ground arith)
]

-- A child that has one before it is not the first.
first-other :
    (f old : Ptr) (xs ys : List Ptr)
    → f ≡ head_or (xs ++ old ∷ ys) null
    → mem old xs ≡ false
    → (last_or null xs == null) ≡ false
    → (old == f) ≡ false
first-other f old [] ys e out some_left = absurd (ground arith)
first-other f old (x ∷ xs) ys e out some_left = rw e (ground arith)

-- A child that has one behind it is not the last.
last-other :
    (f old : Ptr) (xs ys : List Ptr)
    → f ≡ last_or null (xs ++ old ∷ ys)
    → mem old ys ≡ false
    → (head_or ys null == null) ≡ false
    → (old == f) ≡ false
last-other f old xs [] e out some_right = absurd (ground arith)
last-other f old xs (y ∷ ys) e out some_right =
    rw (e, last_or-append null xs (old ∷ y ∷ ys))
      (mem-ne old (last_or y ys) (y ∷ ys) out (mem-last_or y ys))

module _ (h : Store) (p old : Ptr) (xs ys : List Ptr) (is : IsChildList h p (xs ++ old ∷ ys)) where
  not_first : (last_or null xs == null) ≡ false → (old == h.children p) ≡ false
  not_first some_left =
      first-other (h.children p) old xs ys is.first (apart h p old xs ys is).0 some_left

  not_final : (head_or ys null == null) ≡ false → (old == h.last p) ≡ false
  not_final some_right =
      last-other (h.last p) old xs ys is.final (apart h p old xs ys is).1 some_right

  pub not_only :
      (last_or null xs == null && head_or ys null == null) ≡ false
      → ((old == h.children p) && (old == h.last p)) ≡ false
  not_only ends = ground (arith, not_first, not_final)

  -- That is the same as to unlink `old` first.
  pub swapped-unlinked :
      (cur : Ptr)
      → mem cur (xs ++ old ∷ ys) ≡ false
      → swapped h p cur old
        ≡ spliced
            (record (unlinked h old) { parent = update (unlinked h old).parent cur p })
            p
            (last_or null xs)
            (head_or ys null)
            cur
            cur
  swapped-unlinked cur out =
      let g = swapped h p cur old in
      let k =
        spliced (record (unlinked h old) { parent = update (unlinked h old).parent cur p }) p
          (last_or null xs) (head_or ys null) cur cur in
      let (out_xs, rest) = mem-append_false cur xs (old ∷ ys) out in
      let ne : (cur == old) ≡ false = ground arith in
      let at_prev = prev_lem h p old xs ys is in
      let at_next = next_lem h p old xs ys is in
      let left : (old == last_or null xs) ≡ false = rw (← at_prev) (prev-ne h p old xs ys is) in
      let right : (old == head_or ys null) ≡ false = rw (← at_next) (next-ne h p old xs ys is) in
      let next : g.next ≡ k.next =
        rw (at_prev, at_next)
          (fun_ext
            λ q. swapped-next h.next old (last_or null xs) (head_or ys null) cur q ne left) in
      let prev : g.prev ≡ k.prev =
        rw (at_prev, at_next)
          (fun_ext
            λ q. swapped-prev h.prev old (last_or null xs) (head_or ys null) cur q ne right) in
      let parent : g.parent ≡ k.parent = fun_ext λ q. ground arith in
      let children : g.children ≡ k.children =
        rw (at_prev, at_next, parent_lem h p old xs ys is)
          (fun_ext λ q. ground (arith, not_first)) in
      let final : g.last ≡ k.last =
        rw (at_prev, at_next, parent_lem h p old xs ys is)
          (fun_ext λ q. ground (arith, not_final)) in
      let same : with_nodes h g.next g.prev g.parent g.children g.last
          ≡ with_nodes h k.next k.prev k.parent k.children k.last =
        rw (next, prev, parent, children, final) refl in
      same
