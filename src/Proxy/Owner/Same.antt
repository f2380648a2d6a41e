-- ===== src/Proxy/Owner/Same.antt =====
-- A forest of proxies after a change elsewhere.
use perl_xml_lib_xml.Common.{◌≡◌, refl, true, List, [], ◌∷◌, ◌++◌, arith, mem, mem-append}
use perl_xml_lib_xml.Store.{Ptr, Store}
use perl_xml_lib_xml.Proxy.Owner.Walk.{
  Subtrees, nothing, subtree, proxies, IsInner, AreSubtrees, attrs_of, kids_of,
}

unfoldable pub nodes : Subtrees → List Ptr
nodes nothing = []
nodes (subtree x attrs kids rest) = x ∷ (nodes attrs ++ (nodes kids ++ nodes rest))

-- From `h` to `g`, the nodes `xs` keep their parent, their next sibling and their first child, and all
-- nodes and proxies keep the rest of what AreSubtrees reads.
pub record SameNodes (xs : List Ptr) (h g : Store) : Type 0 where
  pub next : (x : Ptr) → mem x xs ≡ true → g.next x ≡ h.next x
  pub parent : (x : Ptr) → mem x xs ≡ true → g.parent x ≡ h.parent x
  pub first : (x : Ptr) → mem x xs ≡ true → g.children x ≡ h.children x
  pub live : g.live ≡ h.live
  pub kind : g.kind ≡ h.kind
  pub properties : g.properties ≡ h.properties
  pub priv : g.priv ≡ h.priv
  pub proxy_live : g.proxy_live ≡ h.proxy_live
  pub proxy_node : g.proxy_node ≡ h.proxy_node

pub SameNodes-mono :
    (xs ys : List Ptr) (h g : Store)
    → ((x : Ptr) → mem x ys ≡ true → mem x xs ≡ true)
    → SameNodes xs h g
    → SameNodes ys h g
SameNodes-mono xs ys h g sub s = record {
  next = λ x i. s.next x (sub x i);
  parent = λ x i. s.parent x (sub x i);
  first = λ x i. s.first x (sub x i);
  live = s.live;
  kind = s.kind;
  properties = s.properties;
  priv = s.priv;
  proxy_live = s.proxy_live;
  proxy_node = s.proxy_node;
}

pub proxies-same :
    (t : Subtrees) (h g : Store) → g.kind ≡ h.kind → g.priv ≡ h.priv → proxies g t ≡ proxies h t
unfolding proxies
proxies-same nothing h g k p = refl
proxies-same (subtree x attrs kids rest) h g k p =
    rw (k, p, proxies-same attrs h g k p, proxies-same kids h g k p, proxies-same rest h g k p)

pub IsInner-same : (h g : Store) (x : Ptr) → SameNodes (x ∷ []) h g → IsInner h x → IsInner g x
IsInner-same h g x s is =
    let here : mem x (x ∷ []) ≡ true = ground arith in
    record {
      live = rw s.live is.live;
      below = rw (s.parent x here, s.live) is.below;
      no_document = rw s.kind is.no_document;
      no_dtd = rw s.kind is.no_dtd;
      proxy_live = rw (s.priv, s.proxy_live) is.proxy_live;
      proxy_node = rw (s.priv, s.proxy_node) is.proxy_node;
    }

pub AreSubtrees-same :
    (t : Subtrees) (h g : Store) (p : Ptr)
    → SameNodes (nodes t) h g
    → AreSubtrees h p t
    → AreSubtrees g p t
unfolding nodes
AreSubtrees-same nothing h g p s is = is
AreSubtrees-same (subtree x attrs kids rest) h g p s is =
    let all = x ∷ (nodes attrs ++ (nodes kids ++ nodes rest)) in
    let here : mem x all ≡ true = ground arith in
    let part = λ (y : Ptr). mem-append y (nodes attrs) (nodes kids ++ nodes rest) in
    let part' = λ (y : Ptr). mem-append y (nodes kids) (nodes rest) in
    (
      is.0,
      IsInner-same h g x (SameNodes-mono all (x ∷ []) h g (λ y i. ground arith) s) is.1,
      rw (s.kind, s.properties)
          (AreSubtrees-same attrs h g (attrs_of h x)
            (SameNodes-mono all (nodes attrs) h g (λ y i. ground (arith, part y)) s) is.2),
      rw (s.kind, s.first x here)
          (AreSubtrees-same kids h g (kids_of h x)
            (SameNodes-mono all (nodes kids) h g (λ y i. ground (arith, part y, part' y)) s) is.3),
      rw (s.next x here) (
          AreSubtrees-same rest h g (h.next x)
            (SameNodes-mono all (nodes rest) h g (λ y i. ground (arith, part y, part' y)) s) is.4),
    )
