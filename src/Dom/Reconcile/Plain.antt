-- ===== src/Dom/Reconcile/Plain.antt =====
-- domReconcileNs on a subtree without namespaces.
use perl_xml_lib_xml.Common.{
  ℕ, zero, suc, ◌+◌, ◌*◌, ◌<◌, ◌≡◌, true, false, ◌||◌, Option, List, [], ◌∷◌, ◌++◌, arith, ◌==◌,
  length, Bool-cases, inl, inr, mem, mem-append,
}
use perl_xml_lib_xml.Store.{Ptr, null, Str, Store, valid}
use perl_xml_lib_xml.Store.Kinds.{is_element}
use perl_xml_lib_xml.Store.Outcome.{done}
use perl_xml_lib_xml.Libxml.{Libxml}
use perl_xml_lib_xml.Dom.Links.Chains.{valid-ne_null, SameElsewhere, NoneIn}
use perl_xml_lib_xml.Dom.Reconcile.{
  dom_reconcile_ns_attr, reconcile_attrs, reconcile_here, dom_reconcile_ns_tree, reconcile_children,
  dom_reconcile_ns,
}

-- The shape of a forest in memory: a node with its attributes, its children, and what follows it.
pub data Forest : Type 0 where
  leaf : Forest
  tree : Ptr → List Ptr → Forest → Forest → Forest

unfoldable pub weight : Forest → ℕ
weight leaf = 0
weight (tree x attrs kids rest) = suc (length attrs + weight kids + weight rest)

unfoldable pub nodes_of : Forest → List Ptr
nodes_of leaf = []
nodes_of (tree x attrs kids rest) = x ∷ (attrs ++ (nodes_of kids ++ nodes_of rest))

-- The attributes from `a` on are `attrs`, none of which has a namespace.
abbrev pub PlainAttrs : Store → Ptr → List Ptr → Type 0
PlainAttrs h a [] = a ≡ null
PlainAttrs h a (x ∷ xs) =
    (a ≡ x)
    × (valid h.live x ≡ true)
    × ((h.parent x == null) || valid h.live (h.parent x)) ≡ true
    × (h.ns x ≡ null)
    × PlainAttrs h (h.next x) xs

-- The nodes from `p` on are the forest, and no node in it has a namespace.
abbrev pub IsPlain : Store → Ptr → Forest → Type 0
IsPlain h p leaf = p ≡ null
IsPlain h p (tree x attrs kids rest) =
    (p ≡ x)
    × (valid h.live x ≡ true)
    × (h.ns x ≡ null)
    × (is_element (h.kind x) ≡ true → PlainAttrs h (h.properties x) attrs)
    × IsPlain h (h.children x) kids
    × IsPlain h (h.next x) rest

-- Neither the node nor its attributes nor its descendants have a namespace.
abbrev pub IsPlainNode : Store → Ptr → List Ptr → Forest → Type 0
IsPlainNode h x attrs kids =
    (valid h.live x ≡ true)
    × (h.ns x ≡ null)
    × (is_element (h.kind x) ≡ true → PlainAttrs h (h.properties x) attrs)
    × IsPlain h (h.children x) kids

module _ (lib : Libxml) (xml : Option Str) where
  reconcile_attrs-plain :
      (k : ℕ) (h : Store) (a unused : Ptr) (attrs : List Ptr)
      → PlainAttrs h a attrs
      → length attrs < k
      → reconcile_attrs lib xml k a unused h ≡ done unused h
  unfolding reconcile_attrs dom_reconcile_ns_attr
  reconcile_attrs-plain zero h a unused attrs is fuel = elim fuel [ ]
  reconcile_attrs-plain (suc k) h a unused [] is fuel = ground arith
  reconcile_attrs-plain (suc k) h a unused (x ∷ xs) is fuel =
      ground (arith, valid-ne_null h.live x, reconcile_attrs-plain k h (h.next x) unused xs)

  reconcile_here-plain :
      (k : ℕ) (h : Store) (x unused : Ptr) (attrs : List Ptr)
      → valid h.live x ≡ true
      → h.ns x ≡ null
      → (is_element (h.kind x) ≡ true → PlainAttrs h (h.properties x) attrs)
      → length attrs < k
      → reconcile_here lib xml k x unused h ≡ done unused h
  unfolding reconcile_here
  reconcile_here-plain k h x unused attrs vx no_ns plain fuel =
      elim (Bool-cases (is_element (h.kind x))) [
        | inl e ↦ rw (
          vx,
          vx,
          no_ns,
          e,
          vx,
          reconcile_attrs-plain k h (h.properties x) unused attrs (plain e) fuel,
        )
        | inr e ↦ rw (vx, vx, no_ns, e)
      ]

  reconcile_children-plain :
      (f : Forest) (k : ℕ) (h : Store) (p unused : Ptr)
      → IsPlain h p f
      → 2 * weight f < k
      → reconcile_children lib xml k p unused h ≡ done unused h
  unfolding dom_reconcile_ns_tree weight
  reconcile_children-plain f zero h p unused is fuel = elim fuel [ ]
  reconcile_children-plain leaf (suc k) h p unused is fuel = rw is
  reconcile_children-plain (tree x attrs kids rest) (suc zero) h p unused is fuel =
      absurd (omega arith)
  reconcile_children-plain (tree x attrs kids rest) (suc (suc k)) h p unused is fuel =
      let here = reconcile_here-plain (suc k) h x unused attrs is.1 is.2 is.3 (omega arith) in
      let inner = reconcile_children-plain kids k h (h.children x) unused is.4 (omega arith) in
      let after = reconcile_children-plain rest (suc k) h (h.next x) unused is.5 (omega arith) in
      rw (is.0, valid-ne_null h.live x is.1, here, is.1, inner, is.1, after)

  -- On a subtree in which neither a node nor an attribute has a namespace, domReconcileNs returns and
  -- changes nothing, given more fuel than twice the number of nodes and attributes.
  pub dom_reconcile_ns-plain :
      (k : ℕ) (h : Store) (x : Ptr) (attrs : List Ptr) (kids : Forest)
      → IsPlainNode h x attrs kids
      → 2 * suc (length attrs + weight kids) < k
      → dom_reconcile_ns lib xml k x h ≡ done tt h
  unfolding dom_reconcile_ns dom_reconcile_ns_tree
  dom_reconcile_ns-plain zero h x attrs kids is fuel = elim fuel [ ]
  dom_reconcile_ns-plain (suc k) h x attrs kids is fuel =
      let here = reconcile_here-plain (suc k) h x null attrs is.0 is.1 is.2 (omega arith) in
      let inner = reconcile_children-plain kids k h (h.children x) null is.3 (omega arith) in
      rw (here, is.0, inner)

-- A subtree without namespaces stays one when only links of other nodes change.
PlainAttrs-frame :
    (h g : Store) (ps zs : List Ptr) (a : Ptr) (attrs : List Ptr)
    → SameElsewhere ps zs h g
    → NoneIn attrs zs
    → PlainAttrs h a attrs
    → PlainAttrs g a attrs
PlainAttrs-frame h g ps zs a [] s out is = is
PlainAttrs-frame h g ps zs a (x ∷ xs) s out is =
    let ox = out x (ground arith) in
    (
      is.0,
      rw s.live is.1,
      rw (s.parent x ox, s.live) is.2,
      rw s.ns is.3,
      rw (s.next x ox)
          (PlainAttrs-frame h g ps zs (h.next x) xs s (λ b i. out b (ground arith)) is.4),
    )

pub IsPlain-frame :
    (h g : Store) (ps zs : List Ptr) (p : Ptr) (f : Forest)
    → SameElsewhere ps zs h g
    → NoneIn (nodes_of f) ps
    → NoneIn (nodes_of f) zs
    → IsPlain h p f
    → IsPlain g p f
unfolding nodes_of
IsPlain-frame h g ps zs p leaf s op oz is = is
IsPlain-frame h g ps zs p (tree x attrs kids rest) s op oz is =
    let ox = oz x (ground arith) in
    let in_attrs : (b : Ptr)
        → mem b attrs ≡ true
        → mem b (nodes_of (tree x attrs kids rest)) ≡ true =
      λ b i. ground (arith, mem-append b attrs (nodes_of kids ++ nodes_of rest)) in
    let in_kids : (b : Ptr)
        → mem b (nodes_of kids) ≡ true
        → mem b (nodes_of (tree x attrs kids rest)) ≡ true =
      λ b i. ground (
        arith,
        mem-append b attrs (nodes_of kids ++ nodes_of rest),
        mem-append b (nodes_of kids) (nodes_of rest),
      ) in
    let in_rest : (b : Ptr)
        → mem b (nodes_of rest) ≡ true
        → mem b (nodes_of (tree x attrs kids rest)) ≡ true =
      λ b i. ground (
        arith,
        mem-append b attrs (nodes_of kids ++ nodes_of rest),
        mem-append b (nodes_of kids) (nodes_of rest),
      ) in
    (
      is.0,
      rw s.live is.1,
      rw s.ns is.2,
      λ e. rw s.properties (
          PlainAttrs-frame h g ps zs (h.properties x) attrs s (λ b i. oz b (in_attrs b i))
            (is.3 (rw s.kind at e))),
      rw (s.first x (op x (ground arith))) (
          IsPlain-frame h g ps zs (h.children x) kids s (λ b i. op b (in_kids b i))
            (λ b i. oz b (in_kids b i)) is.4),
      rw (s.next x ox) (
          IsPlain-frame h g ps zs (h.next x) rest s (λ b i. op b (in_rest b i))
            (λ b i. oz b (in_rest b i)) is.5),
    )

-- The same for a node that was moved itself.
pub IsPlainNode-moved :
    (h g : Store) (ps zs : List Ptr) (x : Ptr) (attrs : List Ptr) (kids : Forest)
    → SameElsewhere ps zs h g
    → NoneIn (attrs ++ nodes_of kids) (ps ++ zs)
    → mem x ps ≡ false
    → IsPlainNode h x attrs kids
    → IsPlainNode g x attrs kids
IsPlainNode-moved h g ps zs x attrs kids s out ox is = (
  rw s.live is.0,
  rw s.ns is.1,
  λ e. rw s.properties (
      PlainAttrs-frame h g ps zs (h.properties x) attrs s
        (λ b i. ground (arith, out b, mem-append b attrs (nodes_of kids), mem-append b ps zs))
        (is.2 (rw s.kind at e))),
  rw (s.first x ox) (
      IsPlain-frame h g ps zs (h.children x) kids s
        (λ b i. ground (arith, out b, mem-append b attrs (nodes_of kids), mem-append b ps zs))
        (λ b i. ground (arith, out b, mem-append b attrs (nodes_of kids), mem-append b ps zs))
        is.3),
)
