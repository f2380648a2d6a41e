-- ===== src/Dom/Traverse/NsRefs.antt =====
-- domRemoveNsRefs on a subtree: its walk by pointers against the forest of the nodes.
use perl_xml_lib_xml.Common.{
  ℕ, zero, suc, ◌+◌, ◌-◌, ◌*◌, ◌≤◌, ◌<◌, ◌≡◌, refl, ap, true, false, ◌&&◌, not, List, [], ◌∷◌, ◌++◌,
  arith, ◌==◌, if◌then◌else◌, length, Bool-cases, inl, inr, mem, mem-append, ==_refl, ==_iff,
}
use mathlib.Core.Path.{fun_ext}
use native.Mathlib.Nat.{zero-add, suc-add, add_assoc}
use perl_xml_lib_xml.Store.{Ptr, null, Store, update, valid}
use perl_xml_lib_xml.Store.Kinds.{is_element, is_entity_ref}
use perl_xml_lib_xml.Store.Outcome.{done}
use perl_xml_lib_xml.Dom.Links.Chains.{valid-ne_null}
use perl_xml_lib_xml.Dom.Reconcile.Plain.{Forest, leaf, tree, weight, nodes_of}
use perl_xml_lib_xml.Dom.Traverse.{
  drop_ns, drop_ns_attrs, climb, walk_on, remove_ns_refs_loop, dom_remove_ns_refs,
}

-- The namespaces of nodes once `ns` is the namespace of none of `xs`.
abbrev pub dropped : Ptr → (Ptr → Ptr) → List Ptr → Ptr → Ptr
dropped ns f xs q = if mem q xs && (f q == ns) then null else f q

abbrev pub with_ns : Store → (Ptr → Ptr) → Store
with_ns h f = record h { ns = f }

-- The attributes from `a` on are `attrs`.
abbrev pub AreAttrs : Store → Ptr → List Ptr → Type 0
AreAttrs h a [] = a ≡ null
AreAttrs h a (x ∷ xs) = (a ≡ x) × (valid h.live x ≡ true) × AreAttrs h (h.next x) xs

-- The first child of a node, but for an entity reference, whose children are the declaration's.
abbrev pub inner : Store → Ptr → Ptr
inner h x = if is_entity_ref (h.kind x) then null else h.children x

-- The nodes from `p` on are the forest, with `up` as their parent.
abbrev pub IsForest : Store → Ptr → Ptr → Forest → Type 0
IsForest h up p leaf = p ≡ null
IsForest h up p (tree x attrs kids rest) =
    (p ≡ x)
    × (valid h.live x ≡ true)
    × (h.parent x ≡ up)
    × AreAttrs h (h.properties x) attrs
    × IsForest h x (inner h x) kids
    × IsForest h up (h.next x) rest

unfoldable pub size : Forest → ℕ
size leaf = 0
size (tree x attrs kids rest) = suc (size kids + size rest)

dropped-append :
    (ns : Ptr) (f : Ptr → Ptr) (xs ys : List Ptr)
    → dropped ns (dropped ns f xs) ys ≡ dropped ns f (xs ++ ys)
dropped-append ns f xs ys = fun_ext λ q. ground (arith, mem-append q xs ys)

drop_ns-dropped :
    (h : Store) (f : Ptr → Ptr) (x ns : Ptr)
    → valid h.live x ≡ true
    → drop_ns x ns (with_ns h f) ≡ done tt (with_ns h (dropped ns f (x ∷ [])))
unfolding drop_ns
drop_ns-dropped h f x ns vx = elim (Bool-cases (f x == ns)) [
  | inl e ↦
      let same : update f x null ≡ dropped ns f (x ∷ []) =
        fun_ext λ q. ground (arith, ==_iff q x) in
      rw (vx, e, vx, same)
  | inr e ↦
      let same : f ≡ dropped ns f (x ∷ []) = fun_ext λ q. ground (arith, ==_iff q x) in
      rw (vx, e) (ap (λ g. done tt (with_ns h g)) same)
]

drop_ns_attrs-dropped :
    (k : ℕ) (h : Store) (f : Ptr → Ptr) (a ns : Ptr) (attrs : List Ptr)
    → AreAttrs h a attrs
    → length attrs < k
    → drop_ns_attrs k a ns (with_ns h f) ≡ done tt (with_ns h (dropped ns f attrs))
unfolding drop_ns_attrs
drop_ns_attrs-dropped zero h f a ns attrs is fuel = elim fuel [ ]
drop_ns_attrs-dropped (suc k) h f a ns [] is fuel = rw is
drop_ns_attrs-dropped (suc k) h f a ns (x ∷ xs) is fuel = rw (
  is.0,
  valid-ne_null h.live x is.1,
  drop_ns-dropped h f x ns is.1,
  is.1,
  drop_ns_attrs-dropped k h (dropped ns f (x ∷ [])) (h.next x) ns xs is.2 (omega arith),
  dropped-append ns f (x ∷ []) xs,
)

-- The nodes above a node, up to `top`; a node below `top` has its parent as the next one.
abbrev Above : Store → Ptr → Ptr → List Ptr → Type 0
Above h top a [] = (a ≡ top) × (valid h.live a ≡ true)
Above h top a (b ∷ st) =
    ((a == top) ≡ false)
    × (valid h.live a ≡ true)
    × (h.parent a ≡ b)
    × ((h.next a == top) ≡ false)
    × Above h top b st

-- Where the walk goes on when the children of `a` are done.
abbrev after_node : Store → Ptr → Ptr → List Ptr → Ptr
after_node h top a [] = null
after_node h top a (b ∷ st) = if h.next a == null then after_node h top b st else h.next a

Above-valid : (h : Store) (top a : Ptr) (st : List Ptr) → Above h top a st → valid h.live a ≡ true
Above-valid h top a [] up = up.1
Above-valid h top a (b ∷ st) up = up.1

-- One round of climbing, from `x` to its parent `a`.
climb_step :
    (k : ℕ) (h : Store) (top x a : Ptr)
    → (x == top) ≡ false
    → valid h.live x ≡ true
    → valid h.live a ≡ true
    → h.parent x ≡ a
    → climb (suc k) top x h ≡ (
        if not (a == top) && not (h.next a == null)
        then done (if h.next a == top then null else h.next a) h
        else if h.parent a == null
        then done null h
        else climb k top a h)
unfolding climb
climb_step k h top x a ne vx va px =
    let na = valid-ne_null h.live a va in
    elim (Bool-cases (a == top)) [
      | inl e ↦ elim (Bool-cases (h.parent a == null)) [
        | inl z ↦ rw (ne, vx, px, na, va, va, e, z)
        | inr z ↦ rw (ne, vx, px, na, va, va, e, z)
      ]
      | inr e ↦ elim (Bool-cases (h.next a == null)) [
        | inl y ↦ elim (Bool-cases (h.parent a == null)) [
          | inl z ↦ rw (ne, vx, px, na, va, va, e, y, z)
          | inr z ↦ rw (ne, vx, px, na, va, va, e, y, z)
        ]
        | inr y ↦ rw (ne, vx, px, na, va, va, e, y)
      ]
    ]

Above-top : (h : Store) (top a : Ptr) (st : List Ptr) → Above h top a st → valid h.live top ≡ true
Above-top h top a [] up = rw up.0 at up.1
Above-top h top a (b ∷ st) up = Above-top h top b st up.4

-- A forest outside of which `top` is does not start at `top`.
root-ne :
    (h : Store) (top a p : Ptr) (t : Forest)
    → valid h.live top ≡ true
    → IsForest h a p t
    → mem top (nodes_of t) ≡ false
    → (p == top) ≡ false
unfolding nodes_of
root-ne h top a p leaf vt is out = let ne = valid-ne_null h.live top vt in ground arith
root-ne h top a p (tree x attrs kids rest) vt is out = ground arith

climb-after_node :
    (k : ℕ) (h : Store) (f : Ptr → Ptr) (top x a : Ptr) (st : List Ptr)
    → (x == top) ≡ false
    → valid h.live x ≡ true
    → h.parent x ≡ a
    → Above h top a st
    → length st + 2 ≤ k
    → climb k top x (with_ns h f) ≡ done (after_node h top a st) (with_ns h f)
climb-after_node zero h f top x a st ne vx px up fuel = absurd (omega arith)
climb-after_node (suc zero) h f top x a st ne vx px up fuel = absurd (omega arith)
climb-after_node (suc (suc k)) h f top x a [] ne vx px up fuel =
    let at_top : climb (suc k) top top (with_ns h f) ≡ done null (with_ns h f) =
      unfold climb in rw (==_refl top) in
    let here : (a == top) ≡ true = rw up.0 (==_refl top) in
    rw (climb_step (suc k) (with_ns h f) top x a ne vx up.1 px, here)
      (rw up.0 (ground (arith, at_top)))
climb-after_node (suc (suc k)) h f top x a (b ∷ st) ne vx px up fuel =
    let vb = Above-valid h top b st up.4 in
    let rest = climb-after_node (suc k) h f top a b st up.0 up.1 up.2 up.4 (omega arith) in
    rw
      (
        climb_step (suc k) (with_ns h f) top x a ne vx up.1 px,
        up.0,
        up.2,
        valid-ne_null h.live b vb,
      )
      (ground (arith, rest, up.3))

module _ (top ns : Ptr) where
  -- The walk goes on at the first child, or behind the node.
  walk_on-inner :
      (k : ℕ) (h : Store) (f : Ptr → Ptr) (x a : Ptr) (st : List Ptr)
      → Above h top x (a ∷ st)
      → length st + 2 ≤ k
      → walk_on k top x (with_ns h f)
        ≡ done (if inner h x == null then after_node h top x (a ∷ st) else inner h x) (with_ns h f)
  unfolding walk_on
  walk_on-inner k h f x a st up fuel =
      let out = climb-after_node k h f top x a st up.0 up.1 up.2 up.4 fuel in
      rw (up.1, up.1, up.1, up.0) (ground (arith, out, up.0))

  -- From `top` itself the walk goes on at its first child only.
  walk_on-top :
      (k : ℕ) (h : Store)
      → valid h.live top ≡ true
      → walk_on k top top h ≡ done (if inner h top == null then null else inner h top) h
  unfolding walk_on
  walk_on-top k h vt = rw (vt, vt, vt, ==_refl top) (ground arith)

  loop_end : (k : ℕ) (h : Store) → 0 < k → remove_ns_refs_loop k top null ns h ≡ done tt h
  unfolding remove_ns_refs_loop
  loop_end zero h some_fuel = elim some_fuel [ ]
  loop_end (suc k) h some_fuel = refl

  -- One round of the loop at a live node with the attributes `attrs`.
  loop_step :
      (k : ℕ) (h : Store) (f : Ptr → Ptr) (x next : Ptr) (attrs : List Ptr)
      → valid h.live x ≡ true
      → AreAttrs h (h.properties x) attrs
      → length attrs < suc k
      → ((g : Ptr → Ptr) → walk_on (suc k) top x (with_ns h g) ≡ done next (with_ns h g))
      → remove_ns_refs_loop (suc k) top x ns (with_ns h f)
        ≡ remove_ns_refs_loop k top next ns (with_ns h (dropped ns f (x ∷ attrs)))
  unfolding remove_ns_refs_loop
  loop_step k h f x next attrs vx is fuel on =
      let g = dropped ns f (x ∷ []) in
      rw (
        valid-ne_null h.live x vx,
        drop_ns-dropped h f x ns vx,
        vx,
        drop_ns_attrs-dropped (suc k) h g (h.properties x) ns attrs is fuel,
        on (dropped ns g attrs),
        dropped-append ns f (x ∷ []) attrs,
      )

  -- The loop over a forest below `a`, and on.
  loop-forest :
      (t : Forest) (k : ℕ) (h : Store) (f : Ptr → Ptr) (p a : Ptr) (st : List Ptr)
      → IsForest h a p t
      → mem top (nodes_of t) ≡ false
      → Above h top a st
      → length st + 2 + weight t ≤ k
      → remove_ns_refs_loop
          (size t + k)
          top
          (if p == null then after_node h top a st else p)
          ns
          (with_ns h f)
        ≡ remove_ns_refs_loop k top
            (after_node h top a st)
            ns
            (with_ns h (dropped ns f (nodes_of t)))
  unfolding size weight nodes_of
  loop-forest leaf k h f p a st is out up fuel = rw (is, zero-add)
  loop-forest (tree x attrs kids rest) k h f p a st is out up fuel =
      let vx = is.1 in
      let ne : (x == top) ≡ false = ground arith in
      let out_kids : mem top (nodes_of kids) ≡ false = ground (
        arith,
        mem-append top attrs (nodes_of kids ++ nodes_of rest),
        mem-append top (nodes_of kids) (nodes_of rest),
      ) in
      let out_rest : mem top (nodes_of rest) ≡ false = ground (
        arith,
        mem-append top attrs (nodes_of kids ++ nodes_of rest),
        mem-append top (nodes_of kids) (nodes_of rest),
      ) in
      let g = dropped ns f (x ∷ attrs) in
      let g' = dropped ns g (nodes_of kids) in
      let next_ne = root-ne h top a (h.next x) rest (Above-top h top a st up) is.5 out_rest in
      let up_x : Above h top x (a ∷ st) = (ne, vx, is.2, next_ne, up) in
      let inside =
        loop-forest kids (size rest + k) h g (inner h x) x (a ∷ st) is.4 out_kids up_x
          (omega arith) in
      let behind = loop-forest rest k h g' (h.next x) a st is.5 out_rest up (omega arith) in
      let first =
        loop_step (size kids + size rest + k) h f x
          (if inner h x == null then after_node h top x (a ∷ st) else inner h x) attrs vx is.3
          (omega arith)
          (λ g. walk_on-inner (suc (size kids + size rest + k)) h g x a st up_x (omega arith)) in
      rw (is.0, valid-ne_null h.live x vx, suc-add, first, add_assoc, inside, behind)
        (rw (
          dropped-append ns g (nodes_of kids) (nodes_of rest),
          dropped-append ns f (x ∷ attrs) (nodes_of kids ++ nodes_of rest),
        ))

size-le-weight : (t : Forest) → size t ≤ weight t
unfolding size weight
size-le-weight leaf = omega arith
size-le-weight (tree x attrs kids rest) = omega (arith, size-le-weight kids, size-le-weight rest)

-- Let `top` be an element with the attributes `attrs` and the descendants `kids`, the children of entity
-- references left out, none of them `top` itself, and let the fuel be more than twice the number of
-- these nodes and attributes. domRemoveNsRefs(top, ns) then returns 1; `top`, each of the attributes
-- and each of the descendants and their attributes that had the namespace `ns` has none, and nothing
-- else changes.
pub dom_remove_ns_refs-dropped :
    (fuel : ℕ) (h : Store) (top ns : Ptr) (attrs : List Ptr) (kids : Forest)
    → valid h.live top ≡ true
    → is_element (h.kind top) ≡ true
    → AreAttrs h (h.properties top) attrs
    → IsForest h top (inner h top) kids
    → mem top (nodes_of kids) ≡ false
    → 2 * suc (length attrs + weight kids) < fuel
    → dom_remove_ns_refs fuel top ns h
      ≡ done true (with_ns h (dropped ns h.ns (top ∷ (attrs ++ nodes_of kids))))
unfolding dom_remove_ns_refs
dom_remove_ns_refs-dropped zero h top ns attrs kids vt element are is out fuel = elim fuel [ ]
dom_remove_ns_refs-dropped (suc k) h top ns attrs kids vt element are is out fuel =
    let small = size-le-weight kids in
    let k' : ℕ = k - size kids in
    let enough : k ≡ size kids + k' = omega arith in
    let g = dropped ns h.ns (top ∷ attrs) in
    let first =
      loop_step top ns k h h.ns top (if inner h top == null then null else inner h top) attrs vt are
        (omega arith) (λ g. walk_on-top top ns (suc k) (with_ns h g) vt) in
    let inside =
      loop-forest top ns kids k' h g (inner h top) top [] is out (refl, vt) (omega arith) in
    rw (valid-ne_null h.live top vt, vt, element, first)
      (rw
        (
          enough,
          inside,
          loop_end top ns k' (with_ns h (dropped ns g (nodes_of kids))) (omega arith),
        )
        (rw (dropped-append ns h.ns (top ∷ attrs) (nodes_of kids))))
