-- ===== src/Xs/Moved.antt =====
-- insertBefore on a node that comes from another parent.
use perl_xml_lib_xml.Common.{
  ℕ, suc, ◌+◌, ◌*◌, ◌<◌, ◌≡◌, sym, ap, true, false, Option, some, List, [], ◌∷◌, ◌++◌, arith, ◌==◌,
  length, mem, mem-append, All_mem,
}
use mathlib.Core.Path.{subst}
use perl_xml_lib_xml.Store.{Ptr, Str, Store, valid}
use perl_xml_lib_xml.Store.Kinds.{is_fragment}
use perl_xml_lib_xml.Store.Outcome.{done}
use perl_xml_lib_xml.Store.Returns.{Returns, Returns-after}
use perl_xml_lib_xml.Libxml.{Libxml}
use perl_xml_lib_xml.Dom.Links.Chains.{IsChildList, SameElsewhere, NoneIn}
use perl_xml_lib_xml.Dom.Hierarchy.{may_hold}
use perl_xml_lib_xml.Dom.Reconcile.Plain.{Forest, weight, nodes_of, IsPlainNode}
use perl_xml_lib_xml.Dom.Edit.Append.{mem-middle}
use perl_xml_lib_xml.Dom.Edit.Before.{dom_insert_before-move}
use perl_xml_lib_xml.Proxy.Node.{pmm_node_type_name}
use perl_xml_lib_xml.Proxy.Counting.{IsProxyOf}
use perl_xml_lib_xml.Proxy.Unwrapping.{pmm_sv_node-IsProxyOf}
use perl_xml_lib_xml.Proxy.Owner.Walk.{Subtrees, size, attrs_of, kids_of, AreSubtrees}
use perl_xml_lib_xml.Proxy.Owner.Same.{
  nodes, SameNodes, SameNodes-mono, proxies-same, AreSubtrees-same,
}
use perl_xml_lib_xml.Xs.Insert.{xs_insert_before}
use perl_xml_lib_xml.Xs.Inserted.{BelongsTo, IsOwnedTree, wrapped_moved, wrap_inserted-moved}

-- What a DOM operation leaves as it is.
SameElsewhere-nodes :
    (ps zs xs : List Ptr) (h g : Store)
    → SameElsewhere ps zs h g
    → NoneIn xs (ps ++ zs)
    → SameNodes xs h g
SameElsewhere-nodes ps zs xs h g s out =
    let out_ps = λ (x : Ptr) (i : mem x xs ≡ true).
      let o : mem x ps ≡ false = ground (arith, out x i, mem-append x ps zs) in o in
    let out_zs = λ (x : Ptr) (i : mem x xs ≡ true).
      let o : mem x zs ≡ false = ground (arith, out x i, mem-append x ps zs) in o in
    record {
      next = λ x i. s.next x (out_zs x i);
      parent = λ x i. s.parent x (out_zs x i);
      first = λ x i. s.first x (out_ps x i);
      live = s.live;
      kind = s.kind;
      properties = s.properties;
      priv = ap (λ m. m.priv) s.others;
      proxy_live = ap (λ m. m.proxy_live) s.others;
      proxy_node = ap (λ m. m.proxy_node) s.others;
    }

-- A tree with its proxies after its root was put somewhere else.
IsOwnedTree-moved :
    (ps zs : List Ptr) (h g : Store) (node new old owner : Ptr) (attrs kids : Subtrees)
    → SameElsewhere ps zs h g
    → NoneIn (nodes attrs ++ nodes kids) (ps ++ zs)
    → mem node ps ≡ false
    → valid g.live (g.parent node) ≡ true
    → IsOwnedTree h node new old owner attrs kids
    → IsOwnedTree g node new old owner attrs kids
IsOwnedTree-moved ps zs h g node new old owner attrs kids s out here below is =
    let all = nodes attrs ++ nodes kids in
    let same = SameElsewhere-nodes ps zs all h g s out in
    let in_attrs =
      SameNodes-mono all (nodes attrs) h g
        (λ x i. ground (arith, mem-append x (nodes attrs) (nodes kids))) same in
    let in_kids =
      SameNodes-mono all (nodes kids) h g
        (λ x i. ground (arith, mem-append x (nodes attrs) (nodes kids))) same in
    let counts = ap (λ m. m.proxy_count) s.others in
    let owners = ap (λ m. m.proxy_owner) s.others in
    let pa = proxies-same attrs h g s.kind same.priv in
    let pk = proxies-same kids h g s.kind same.priv in
    let same_attrs : attrs_of g node ≡ attrs_of h node = rw (s.kind, s.properties) in
    let same_kids : kids_of g node ≡ kids_of h node = rw (s.kind, s.first node here) in
    record {
      inner = record {
        live = rw s.live is.inner.live;
        below = below;
        no_document = rw s.kind is.inner.no_document;
        no_dtd = rw s.kind is.inner.no_dtd;
        proxy_live = rw (same.priv, same.proxy_live) is.inner.proxy_live;
        proxy_node = rw (same.priv, same.proxy_node) is.inner.proxy_node;
      };
      has_owner = rw s.kind is.has_owner;
      no_doc_proxy = rw s.kind is.no_doc_proxy;
      has_proxy = rw same.priv is.has_proxy;
      attrs_are =
          subst (λ p. AreSubtrees g p attrs) (sym same_attrs)
            (AreSubtrees-same attrs h g (attrs_of h node) in_attrs is.attrs_are);
      kids_are =
          subst (λ p. AreSubtrees g p kids) (sym same_kids)
            (AreSubtrees-same kids h g (kids_of h node) in_kids is.kids_are);
      owners = record {
        new_live = rw same.proxy_live is.owners.new_live;
        old_live = rw same.proxy_live is.owners.old_live;
        differ = is.owners.differ;
        owner_live = rw s.live is.owners.owner_live;
        owner_proxy = rw same.priv is.owners.owner_proxy;
      };
      can_move = rw (pa, pk, same.priv, counts, owners) is.can_move;
      room = rw (same.priv, counts) is.room;
    }

BelongsTo-moved :
    (ps zs : List Ptr) (h g : Store) (node new : Ptr)
    → SameElsewhere ps zs h g
    → BelongsTo h node new
    → BelongsTo g node new
BelongsTo-moved ps zs h g node new s to =
    let priv = ap (λ m. m.priv) s.others in
    let owners = ap (λ m. m.proxy_owner) s.others in
    let proxy_live = ap (λ m. m.proxy_live) s.others in
    record {
      live = rw s.live to.live;
      proxy_live = rw (priv, proxy_live) to.proxy_live;
      owner_live = rw (priv, owners, s.live) to.owner_live;
      owner_proxy = rw (priv, owners) to.owner_proxy;
    }

-- The changes of the proxies are those that start from `h`.
wrapped_moved-same :
    (ps zs : List Ptr) (h g : Store) (node new old owner : Ptr) (attrs kids : Subtrees)
    → SameElsewhere ps zs h g
    → ((wrapped_moved g node new old owner attrs kids).proxy_owner
        ≡ (wrapped_moved h node new old owner attrs kids).proxy_owner)
      × ((wrapped_moved g node new old owner attrs kids).proxy_count
          ≡ (wrapped_moved h node new old owner attrs kids).proxy_count)
wrapped_moved-same ps zs h g node new old owner attrs kids s =
    let priv = ap (λ m. m.priv) s.others in
    let pa = proxies-same attrs h g s.kind priv in
    let pk = proxies-same kids h g s.kind priv in
    let proxy_node = ap (λ m. m.proxy_node) s.others in
    let counts = ap (λ m. m.proxy_count) s.others in
    let owners = ap (λ m. m.proxy_owner) s.others in
    (rw (pa, pk, priv, proxy_node, owners), rw (pa, pk, priv, counts))

-- The siblings are still the same once proxies have moved.
IsChildList-proxies :
    (h : Store) (node new old owner p : Ptr) (attrs kids : Subtrees) (xs : List Ptr)
    → IsChildList h p xs
    → IsChildList (wrapped_moved h node new old owner attrs kids) p xs
IsChildList-proxies h node new old owner p attrs kids xs is = record {
  first = is.first;
  final = is.final;
  linked = is.linked;
  owned = is.owned;
  nodes = is.nodes;
  distinct = is.distinct;
}

-- Let `us ++ node ∷ vs` be the children of `q`, and `xs ++ ref ∷ ys` those of another node `self` of
-- the same document, with `ref_proxy` as the live proxy of `ref`. Let the hierarchy allow `node` under
-- `self`, and let `node` be no fragment, document, DTD or declaration and have no namespaces in its
-- subtree. Let `node` have a live proxy with less than 2^31 - 1 references; let all proxies of its
-- subtree belong to `owner` with the proxy `old`, which has more references than these and less than
-- 2^31, and that of `self` to a node with another proxy `new` outside of the subtree, whose count stays
-- below 2^31 when these are added. Let the nodes below `node` be others than `self`, `q` and
-- their children, and the fuel more than twice the size of the subtree plus two. The method insertBefore
-- then returns a reference to the proxy of `node`; `node` stands before `ref` in the children
-- of `self` and is gone from those of `q`; all proxies of its subtree belong to the node of `new`, whose
-- count has gone up by their number, as that of `old` has gone down; and the count of the proxy of `node`
-- has gone up by one.
pub xs_insert_before-moved :
    (lib : Libxml) (xml : Option Str) (fuel : ℕ) (h : Store)
    (self q node ref ref_proxy new old owner : Ptr) (us vs xs ys plain_attrs : List Ptr)
    (plain_kids : Forest) (attrs kids : Subtrees)
    → IsChildList h self (xs ++ ref ∷ ys)
    → IsChildList h q (us ++ node ∷ vs)
    → valid h.live q ≡ true
    → (self == q) ≡ false
    → h.doc node ≡ h.doc self
    → may_hold fuel self node h ≡ done true h
    → is_fragment (h.kind node) ≡ false
    → IsPlainNode h node plain_attrs plain_kids
    → NoneIn
        (plain_attrs ++ nodes_of plain_kids)
        (self ∷ q ∷ ((xs ++ ref ∷ ys) ++ (us ++ node ∷ vs)))
    → mem node (self ∷ q ∷ []) ≡ false
    → 2 * suc (length plain_attrs + weight plain_kids) < fuel
    → IsProxyOf h ref_proxy ref
    → BelongsTo h self new
    → IsOwnedTree h node new old owner attrs kids
    → NoneIn (nodes attrs ++ nodes kids) (self ∷ q ∷ ((xs ++ ref ∷ ys) ++ (us ++ node ∷ vs)))
    → 2 * (size attrs + size kids) + 2 < fuel
    → Returns (xs_insert_before lib xml fuel self node (some ref_proxy) h) (λ r g.
      (r ≡ some (pmm_node_type_name (h.kind node), h.priv node))
      × IsChildList g self (xs ++ node ∷ ref ∷ ys)
      × IsChildList g q (us ++ vs)
      × (g.proxy_owner ≡ (wrapped_moved h node new old owner attrs kids).proxy_owner)
      × (g.proxy_count ≡ (wrapped_moved h node new old owner attrs kids).proxy_count))
unfolding xs_insert_before
xs_insert_before-moved lib xml fuel h self q node ref ref_proxy new old owner us vs xs ys
      plain_attrs plain_kids attrs kids is js vq ne same_doc allowed kf plain apart below enough
      proxied to tree apart' enough' =
    let zs = (xs ++ ref ∷ ys) ++ (us ++ node ∷ vs) in
    let moves =
      dom_insert_before-move lib xml fuel h self q node ref us vs xs ys plain_attrs plain_kids is js
        to.live vq ne same_doc allowed tree.inner.no_dtd kf plain apart below enough in
    rw (pmm_sv_node-IsProxyOf h ref_proxy ref proxied) (
      Returns-after _ _
        (λ r k.
          (r ≡ node)
          × IsChildList k self (xs ++ node ∷ ref ∷ ys)
          × IsChildList k q (us ++ vs)
          × SameElsewhere (self ∷ q ∷ []) zs h k)
        _ moves
        λ r k post.
          let s = post.3 in
          let under : k.parent node ≡ self =
            All_mem (λ x. k.parent x ≡ self) node (xs ++ node ∷ ref ∷ ys) post.1.owned
              (mem-middle node xs (ref ∷ ys)) in
          let at_k =
            IsOwnedTree-moved (self ∷ q ∷ []) zs h k node new old owner attrs kids s apart' below
              (rw (under, s.live) to.live) tree in
          let wrap =
            wrap_inserted-moved lib xml fuel k self node new old owner attrs kids
              (BelongsTo-moved (self ∷ q ∷ []) zs h k self new s to) at_k enough' in
          let changes = wrapped_moved-same (self ∷ q ∷ []) zs h k node new old owner attrs kids s in
          rw (post.0, wrap)
            (
              rw (s.kind, ap (λ m. m.priv) s.others),
              IsChildList-proxies k node new old owner self attrs kids _ post.1,
              IsChildList-proxies k node new old owner q attrs kids _ post.2,
              changes.0,
              changes.1,
            ))
