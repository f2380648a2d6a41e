-- ===== src/Proxy/Lifetime.antt =====
-- The life of a proxy, from the first Perl reference to its node to the last (PmmNodeToSv,
-- PmmREFCNT_dec).
use perl_xml_lib_xml.Common.{
  ℕ, suc, ◌+◌, ◌^◌, ◌<◌, ◌≡◌, refl, Bool, true, false, some, arith, ◌==◌, if◌then◌else◌, ==_refl,
  Bool-cases, inl, inr, ==_iff,
}
use mathlib.Core.Path.{fun_ext}
use perl_xml_lib_xml.Store.{Ptr, null, Store, update, valid}
use perl_xml_lib_xml.Store.Outcome.{done, ◌>>=◌}
use perl_xml_lib_xml.Store.Returns.{Returns}
use perl_xml_lib_xml.Libxml.{Libxml}
use perl_xml_lib_xml.Dom.Links.Chains.{valid-ne_null}
use perl_xml_lib_xml.Proxy.Count.{int_inc, int_inc_small}
use perl_xml_lib_xml.Proxy.Node.{
  has_doc_proxy, pmm_node_type_name, pmm_new_node, init_proxy, pmm_refcnt_dec,
}
use perl_xml_lib_xml.Proxy.Sv.{proxy_with_owner, copy_encoding, pmm_node_to_sv}
use perl_xml_lib_xml.Proxy.Counting.{IsProxyOf, Allocates, valid-new, pmm_refcnt_inc-run}
use perl_xml_lib_xml.Proxy.LastReference.{FreesProxy, IsOwned, pmm_refcnt_dec-run}

-- The store once `node` has the new proxy `p`, without owner and reference.
abbrev with_proxy : Store → Ptr → Ptr → Store
with_proxy h p node = record h {
  proxy_live = λ q. if q == p then true else h.proxy_live q;
  proxy_node = update h.proxy_node p node;
  proxy_owner = update h.proxy_owner p null;
  proxy_count = update h.proxy_count p 0;
  priv = update h.priv node p;
}

pmm_new_node-run :
    (lib : Libxml) (h : Store) (p node : Ptr)
    → valid h.live node ≡ true
    → h.priv node ≡ null
    → has_doc_proxy (h.kind node) ≡ false
    → Allocates lib h p
    → pmm_new_node lib node h ≡ done p (with_proxy h p node)
unfolding pmm_new_node init_proxy
pmm_new_node-run lib h p node vn bare kd gives =
    let vp = valid-new h.proxy_live p gives.not_null in
    rw
      (valid-ne_null h.live node vn, vn, bare, gives.result, gives.not_null, vn, kd, vp, vp, vp, vn)

-- The store once `node` has the new proxy `p`, which belongs to the node of `owner_proxy` and has one
-- reference.
abbrev pub born : Store → Ptr → Ptr → Ptr → Ptr → Store
born h p node owner owner_proxy =
    let g = with_proxy h p node in
    let c = update g.proxy_count owner_proxy (int_inc (g.proxy_count owner_proxy)) in
    record g {
      proxy_owner = update g.proxy_owner p owner;
      proxy_count = update c p (int_inc (c p));
    }

valid-grown :
    (live : Ptr → Bool) (p q : Ptr)
    → valid live q ≡ true
    → valid (λ r. if r == p then true else live r) q ≡ true
unfolding valid
valid-grown live p q v = ground arith

valid-fresh :
    (live : Ptr → Bool) (p q : Ptr) → valid live q ≡ true → live p ≡ false → (q == p) ≡ false
unfolding valid
valid-fresh live p q v out = elim (Bool-cases (q == p)) [
  | inl e ↦
      let same = (==_iff q p).0 e in
      let dead : live q ≡ false = rw same out in absurd (ground arith)
  | inr e ↦ e
]

pmm_node_to_sv-born :
    (lib : Libxml) (h : Store) (p node owner owner_proxy : Ptr)
    → valid h.live node ≡ true
    → h.priv node ≡ null
    → has_doc_proxy (h.kind node) ≡ false
    → IsProxyOf h owner_proxy owner
    → (owner_proxy == p) ≡ false
    → Allocates lib h p
    → pmm_node_to_sv lib node owner_proxy h
      ≡ done (some (pmm_node_type_name (h.kind node), p)) (born h p node owner owner_proxy)
unfolding pmm_node_to_sv proxy_with_owner copy_encoding
pmm_node_to_sv-born lib h p node owner owner_proxy vn bare kd by other gives =
    let vp = valid-new h.proxy_live p gives.not_null in
    let vo = valid-grown h.proxy_live p owner_proxy by.proxy_live in
    let g = with_proxy h p node in
    let g' = record g { proxy_owner = update g.proxy_owner p owner } in
    let g'' = record g' {
      proxy_count = update g.proxy_count owner_proxy (int_inc (g.proxy_count owner_proxy));
    } in
    rw (
      valid-ne_null h.live node vn,
      vn,
      vn,
      bare,
      pmm_new_node-run lib h p node vn bare kd gives,
      gives.not_null,
      valid-ne_null h.proxy_live owner_proxy by.proxy_live,
      vo,
      other,
      by.forth,
      vp,
      pmm_refcnt_inc-run g' owner_proxy vo,
      pmm_refcnt_inc-run g'' p vp,
      vn,
      kd,
      other,
    )

-- Let `node`, which is no document, have a parent and no proxy, and let the proxy of its owner have a
-- reference and room for another below 2^31. With xmlMalloc that hands out a block that was not in use,
-- xmlFree that takes it back, and fuel for two calls, wrapping the node and dropping that reference again returns the count
-- 1 with the memory of proxies, the proxies of all nodes and the counts of all proxies that were in use
-- as before, and with all nodes and their links as they were.
pub pmm_node_to_sv-pmm_refcnt_dec :
    (lib : Libxml) (k : ℕ) (h : Store) (p node owner owner_proxy : Ptr)
    → valid h.live node ≡ true
    → h.priv node ≡ null
    → has_doc_proxy (h.kind node) ≡ false
    → (h.parent node == null) ≡ false
    → IsProxyOf h owner_proxy owner
    → (owner == node) ≡ false
    → 0 < h.proxy_count owner_proxy
    → h.proxy_count owner_proxy + 1 < 2 ^ 31
    → h.proxy_live p ≡ false
    → Allocates lib h p
    → FreesProxy lib p
    → 0 < k
    → Returns
        ((pmm_node_to_sv lib node owner_proxy >>= λ _. pmm_refcnt_dec lib (suc k) p) h)
        (λ c g.
          (c ≡ 1)
          × (g.proxy_live ≡ h.proxy_live)
          × (g.priv ≡ h.priv)
          × ((q : Ptr) → h.proxy_live q ≡ true → g.proxy_count q ≡ h.proxy_count q)
          × (g ≡ record h {
            proxy_live = g.proxy_live;
            proxy_node = g.proxy_node;
            proxy_owner = g.proxy_owner;
            proxy_count = g.proxy_count;
            priv = g.priv;
          }))
pmm_node_to_sv-pmm_refcnt_dec lib k h p node owner owner_proxy vn bare kd inside by apart some_ref
      room fresh gives frees some_fuel =
    let other : (owner_proxy == p) ≡ false =
      valid-fresh h.proxy_live p owner_proxy by.proxy_live fresh in
    let g = born h p node owner owner_proxy in
    let is : IsProxyOf g p node = record {
      proxy_live = valid-new h.proxy_live p gives.not_null;
      live = vn;
      forth = ground arith;
      back = ground arith;
    } in
    let by' : IsProxyOf g owner_proxy owner = record {
      proxy_live = valid-grown h.proxy_live p owner_proxy by.proxy_live;
      live = by.live;
      forth = rw (other, by.forth) refl;
      back = rw (apart, by.back) refl;
    } in
    let owned : IsOwned g p owner owner_proxy = record {
      held_by = ground arith;
      owned_by = by';
      other = other;
    } in
    let up : int_inc (h.proxy_count owner_proxy) ≡ h.proxy_count owner_proxy + 1 =
      int_inc_small (h.proxy_count owner_proxy) (omega arith) in
    let one : g.proxy_count p ≡ 1 = ground (arith, ==_refl p, other, int_inc_small 0) in
    let two : g.proxy_count owner_proxy ≡ h.proxy_count owner_proxy + 1 =
      ground (arith, other, up) in
    rw
      (
        pmm_node_to_sv-born lib h p node owner owner_proxy vn bare kd by other gives,
        pmm_refcnt_dec-run lib k g p node owner owner_proxy is owned apart one inside
            (rw two (omega arith)) (rw two room) frees some_fuel,
      )
      (
        refl,
        fun_ext (λ q. ground (arith, fresh)),
        fun_ext (λ q. ground (arith, bare)),
        λ q l. ground (arith, two, other, fresh),
        refl,
      )
