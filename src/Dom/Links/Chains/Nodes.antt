-- ===== src/Dom/Links/Chains/Nodes.antt =====
-- The child list of a node, what an operation keeps elsewhere, and lists of nodes.
use perl_xml_lib_xml.Common.{
  ◌≡◌, refl, Bool, true, false, List, [], ◌∷◌, ◌++◌, arith, ◌==◌, if◌then◌else◌, head_or, last_or,
  All, mem, Distinct, mem-append,
}
use perl_xml_lib_xml.Store.{Ptr, null, Store, update, valid}

abbrev pub Links : Type 0
Links = Ptr → Ptr

-- `f` with its value at `p` replaced, unless `p` is NULL.
abbrev pub update_ref : Links → Ptr → Ptr → Links
update_ref f p v = if p == null then f else update f p v

pub update_ref-update :
    (f : Links) (p v : Ptr) → (p == null) ≡ false → update_ref f p v ≡ update f p v
update_ref-update f p v h = rw h

-- The nodes `xs` are linked both ways, behind `before` and ahead of `after`.
abbrev pub Linked : Links → Links → Ptr → List Ptr → Ptr → Type 0
Linked next prev before [] after = Unit
Linked next prev before (x ∷ xs) after =
    (prev x ≡ before) × (next x ≡ head_or xs after) × Linked next prev x xs after

abbrev pub AllNodes : (Ptr → Bool) → List Ptr → Type 0
AllNodes live = All (λ x. valid live x ≡ true)

-- The children of `p` are `xs`, in order, and all pointers among them agree.
pub record IsChildList (h : Store) (p : Ptr) (xs : List Ptr) : Type 0 where
  pub first : h.children p ≡ head_or xs null
  pub final : h.last p ≡ last_or null xs
  pub linked : Linked h.next h.prev null xs null
  pub owned : All (λ x. h.parent x ≡ p) xs
  pub nodes : AllNodes h.live xs
  pub distinct : Distinct xs

-- The store `g` with the links between nodes that `h` has.
abbrev pub with_links : Store → Store → Store
with_links g h = record g {
  next = h.next;
  prev = h.prev;
  parent = h.parent;
  children = h.children;
  last = h.last;
}

-- From `h` to `g`, the nodes outside of `zs` keep their siblings and their parent, the nodes outside of
-- `ps` keep their first and their last child, and all else in the store stays.
pub record SameElsewhere (ps zs : List Ptr) (h g : Store) : Type 0 where
  pub next : (q : Ptr) → mem q zs ≡ false → g.next q ≡ h.next q
  pub prev : (q : Ptr) → mem q zs ≡ false → g.prev q ≡ h.prev q
  pub parent : (q : Ptr) → mem q zs ≡ false → g.parent q ≡ h.parent q
  pub first : (q : Ptr) → mem q ps ≡ false → g.children q ≡ h.children q
  pub final : (q : Ptr) → mem q ps ≡ false → g.last q ≡ h.last q
  pub live : g.live ≡ h.live
  pub kind : g.kind ≡ h.kind
  pub doc : g.doc ≡ h.doc
  pub ns : g.ns ≡ h.ns
  pub properties : g.properties ≡ h.properties
  pub others : with_links g h ≡ h

pub valid-ne_null : (live : Ptr → Bool) (p : Ptr) → valid live p ≡ true → (p == null) ≡ false
unfolding valid
valid-ne_null live p h = ground arith

-- Inside and outside of a list are different.
pub mem-ne : (a b : Ptr) (xs : List Ptr) → mem a xs ≡ false → mem b xs ≡ true → (a == b) ≡ false
mem-ne a b [] out i = cc
mem-ne a b (x ∷ xs) out i = ground (arith, mem-ne a b xs)

pub last_or-ne_null :
    (x : Ptr) (r : List Ptr) → mem null (x ∷ r) ≡ false → (last_or x r == null) ≡ false
last_or-ne_null x [] h = ground arith
last_or-ne_null x (y ∷ r) h = last_or-ne_null y r (ground arith)

pub mem-null_nodes : (live : Ptr → Bool) (xs : List Ptr) → AllNodes live xs → mem null xs ≡ false
mem-null_nodes live [] all = refl
mem-null_nodes live (x ∷ xs) all =
    ground (arith, valid-ne_null live x all.0, mem-null_nodes live xs all.1)

pub Distinct-append :
    (xs ys : List Ptr)
    → Distinct xs
    → Distinct ys
    → ((a : Ptr) → mem a xs ≡ true → mem a ys ≡ false)
    → Distinct (xs ++ ys)
Distinct-append [] ys dx dy apart = dy
Distinct-append (x ∷ xs) ys dx dy apart = (
  ground (arith, mem-append x xs ys, apart x),
  Distinct-append xs ys dx.1 dy (λ a i. ground (arith, apart a)),
)

pub Distinct-split :
    (xs ys : List Ptr)
    → Distinct (xs ++ ys)
    → Distinct xs × Distinct ys × ((a : Ptr) → mem a xs ≡ true → mem a ys ≡ false)
Distinct-split [] ys d = (tt, d, λ a i. cc)
Distinct-split (x ∷ xs) ys d =
    let rest = Distinct-split xs ys d.1 in
    (
      (ground (arith, mem-append x xs ys), rest.0),
      rest.1,
      λ a i. ground (arith, mem-append x xs ys, rest.2 a),
    )

pub mem-ne_sym : (a b : Ptr) (xs : List Ptr) → mem b xs ≡ false → mem a xs ≡ true → (a == b) ≡ false
mem-ne_sym a b xs out i = ground (arith, mem-ne b a xs)

pub mem-last_or : (y : Ptr) (r : List Ptr) → mem (last_or y r) (y ∷ r) ≡ true
mem-last_or y [] = ground arith
mem-last_or y (z ∷ r) = ground (arith, mem-last_or z r)
