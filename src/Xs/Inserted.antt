-- ===== src/Xs/Inserted.antt =====
-- insertBefore as a whole: the child lists, the Perl value, and the owners and counts of the proxies.
use perl_xml_lib_xml.Common.{
  ℕ, ◌+◌, ◌*◌, ◌^◌, ◌<◌, ◌≡◌, refl, true, false, Option, some, List, ◌∷◌, ◌++◌, arith, ◌==◌,
}
use perl_xml_lib_xml.Store.{Ptr, null, Str, Store, update, valid}
use perl_xml_lib_xml.Store.Outcome.{done}
use perl_xml_lib_xml.Libxml.{Libxml}
use perl_xml_lib_xml.Dom.Links.Chains.{valid-ne_null}
use perl_xml_lib_xml.Proxy.Count.{int_inc, int_inc_small}
use perl_xml_lib_xml.Proxy.Node.{has_doc_proxy, pmm_node_type_name, pmm_ownerpo}
use perl_xml_lib_xml.Proxy.Counting.{IsProxyOf, pmm_node_to_sv-run}
use perl_xml_lib_xml.Proxy.Owner.{has_no_owner}
use perl_xml_lib_xml.Proxy.Owner.Moved.{AreOwners, CanMove, all_moved}
use perl_xml_lib_xml.Proxy.Owner.Walk.{
  Subtrees, size, attrs_of, kids_of, proxies, IsInner, AreSubtrees,
}
use perl_xml_lib_xml.Proxy.Owner.Same.{SameNodes, proxies-same, IsInner-same, AreSubtrees-same}
use perl_xml_lib_xml.Proxy.Owner.Fixed.{pmm_fix_owner-subtree}
use perl_xml_lib_xml.Xs.Kept.{owner_of, keep_dtd}
use perl_xml_lib_xml.Xs.Insert.{wrap_inserted}

-- The proxy of `node` belongs to a node with the proxy `new`.
pub record BelongsTo (h : Store) (node new : Ptr) : Type 0 where
  pub live : valid h.live node ≡ true
  pub proxy_live : valid h.proxy_live (h.priv node) ≡ true
  pub owner_live : valid h.live (h.proxy_owner (h.priv node)) ≡ true
  pub owner_proxy : h.priv (h.proxy_owner (h.priv node)) ≡ new

-- `node` and its subtree as PmmFixOwner finds them: the nodes with their proxies, which all belong to
-- `owner`.
pub record IsOwnedTree (h : Store) (node new old owner : Ptr) (attrs kids : Subtrees) : Type 0 where
  pub inner : IsInner h node
  pub has_owner : has_no_owner (h.kind node) ≡ false
  pub no_doc_proxy : has_doc_proxy (h.kind node) ≡ false
  pub has_proxy : (h.priv node == null) ≡ false
  pub attrs_are : AreSubtrees h (attrs_of h node) attrs
  pub kids_are : AreSubtrees h (kids_of h node) kids
  pub owners : AreOwners h new old owner
  pub can_move :
      CanMove new old owner h.proxy_owner h.proxy_count
        (h.priv node ∷ (proxies h attrs ++ proxies h kids))
  pub room : h.proxy_count (h.priv node) + 1 < 2 ^ 31

owner_of-BelongsTo :
    (h : Store) (node new : Ptr) → BelongsTo h node new → owner_of node h ≡ done new h
unfolding owner_of pmm_ownerpo
owner_of-BelongsTo h node new to = rw (
  to.live,
  valid-ne_null h.proxy_live (h.priv node) to.proxy_live,
  to.proxy_live,
  valid-ne_null h.live (h.proxy_owner (h.priv node)) to.owner_live,
  to.owner_live,
  to.owner_proxy,
)

-- The store once the proxy of `node` has one reference more.
abbrev pub wrapped : Store → Ptr → Store
wrapped h node = record h {
  proxy_count = update h.proxy_count (h.priv node) (h.proxy_count (h.priv node) + 1);
}

-- The store once the proxies of the tree belong to the node of `new`, too.
abbrev pub wrapped_moved : Store → Ptr → Ptr → Ptr → Ptr → Subtrees → Subtrees → Store
wrapped_moved h node new old owner attrs kids =
    let ps = h.priv node ∷ (proxies h attrs ++ proxies h kids) in
    all_moved (wrapped h node) new old owner ps h.proxy_owner (wrapped h node).proxy_count

-- The tree is the same once its node was wrapped.
wrapped-IsOwnedTree :
    (h : Store) (node new old owner : Ptr) (attrs kids : Subtrees)
    → IsOwnedTree h node new old owner attrs kids
    → IsInner (wrapped h node) node
      × AreSubtrees (wrapped h node) (attrs_of h node) attrs
      × AreSubtrees (wrapped h node) (kids_of h node) kids
      × AreOwners (wrapped h node) new old owner
      × CanMove new old owner h.proxy_owner
          (wrapped h node).proxy_count
          (h.priv node ∷ (proxies h attrs ++ proxies h kids))
wrapped-IsOwnedTree h node new old owner attrs kids is =
    let same = λ (xs : List Ptr).
      let s : SameNodes xs h (wrapped h node) = record {
        next = λ x i. refl;
        parent = λ x i. refl;
        first = λ x i. refl;
        live = refl;
        kind = refl;
        properties = refl;
        priv = refl;
        proxy_live = refl;
        proxy_node = refl;
      } in
      s in
    (
      IsInner-same h (wrapped h node) node (same _) is.inner,
      AreSubtrees-same attrs h (wrapped h node) (attrs_of h node) (same _) is.attrs_are,
      AreSubtrees-same kids h (wrapped h node) (kids_of h node) (same _) is.kids_are,
      record {
        new_live = is.owners.new_live;
        old_live = is.owners.old_live;
        differ = is.owners.differ;
        owner_live = is.owners.owner_live;
        owner_proxy = is.owners.owner_proxy;
      },
      record {
        owned = is.can_move.owned;
        distinct = is.can_move.distinct;
        not_new = is.can_move.not_new;
        not_old = is.can_move.not_old;
        remain = ground (arith, is.can_move.remain, is.can_move.not_old);
        old_small = ground (arith, is.can_move.old_small, is.can_move.not_old);
        new_small = ground (arith, is.can_move.new_small, is.can_move.not_new);
      },
    )

module _ (lib : Libxml) (xml : Option Str) where
  -- What insertBefore and insertAfter do behind the DOM operation.
  pub wrap_inserted-moved :
      (fuel : ℕ) (h : Store) (self node new old owner : Ptr) (attrs kids : Subtrees)
      → BelongsTo h self new
      → IsOwnedTree h node new old owner attrs kids
      → 2 * (size attrs + size kids) + 2 < fuel
      → wrap_inserted lib xml fuel self node h
        ≡ done
            (some (pmm_node_type_name (h.kind node), h.priv node))
            (wrapped_moved h node new old owner attrs kids)
  unfolding wrap_inserted keep_dtd
  wrap_inserted-moved fuel h self node new old owner attrs kids to is enough =
      let g = wrapped h node in
      let vn = is.inner.live in
      let vp = is.inner.proxy_live is.has_proxy in
      let proxy : IsProxyOf h (h.priv node) node = record {
        proxy_live = vp;
        live = vn;
        forth = is.inner.proxy_node is.has_proxy;
        back = refl;
      } in
      let up : int_inc (h.proxy_count (h.priv node)) ≡ h.proxy_count (h.priv node) + 1 =
        int_inc_small (h.proxy_count (h.priv node)) (omega (arith, is.room)) in
      let to' : BelongsTo g self new = record {
        live = to.live;
        proxy_live = to.proxy_live;
        owner_live = to.owner_live;
        owner_proxy = to.owner_proxy;
      } in
      let at_g = wrapped-IsOwnedTree h node new old owner attrs kids is in
      let pa = proxies-same attrs h g refl refl in
      let pk = proxies-same kids h g refl refl in
      let fixed =
        pmm_fix_owner-subtree lib fuel g new old owner node attrs kids at_g.3 at_g.0 is.has_owner
          is.has_proxy at_g.1 at_g.2 (rw (pa, pk) at_g.4) enough in
      rw (
        valid-ne_null h.live node vn,
        owner_of-BelongsTo h self new to,
        pmm_node_to_sv-run lib h (h.priv node) node new proxy is.no_doc_proxy,
        up,
        vn,
        is.inner.no_dtd,
        vn,
        owner_of-BelongsTo g self new to',
        fixed,
        pa,
        pk,
      )
