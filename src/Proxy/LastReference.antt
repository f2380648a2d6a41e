-- ===== src/Proxy/LastReference.antt =====
-- Dropping the last reference to a node that belongs to an owner's tree.
use perl_xml_lib_xml.Common.{
  ℕ, zero, suc, ◌-◌, ◌^◌, ◌<◌, ◌≡◌, refl, true, false, arith, ◌==◌, ==_refl,
}
use perl_xml_lib_xml.Store.{Ptr, null, Store, update, valid}
use perl_xml_lib_xml.Store.Outcome.{done}
use perl_xml_lib_xml.Store.Returns.{Returns}
use perl_xml_lib_xml.Libxml.{Libxml}
use perl_xml_lib_xml.Dom.Links.Chains.{valid-ne_null}
use perl_xml_lib_xml.Proxy.Count.{int_dec, not_positive}
use perl_xml_lib_xml.Proxy.Node.{
  pmm_ownerpo, pmm_refcnt_dec, forget_node, free_if_root, warn_below_zero,
}
use perl_xml_lib_xml.Proxy.Counting.{IsProxyOf, pmm_refcnt_dec-shared}

-- `xmlFree` takes the block of `proxy` back, and touches nothing else.
abbrev pub FreesProxy : Libxml → Ptr → Type 0
FreesProxy lib proxy =
    (g : Store)
    → valid g.proxy_live proxy ≡ true
    → lib.free_proxy proxy g ≡ done tt (record g { proxy_live = update g.proxy_live proxy false })

forget_node-run :
    (lib : Libxml) (h : Store) (proxy node : Ptr)
    → IsProxyOf h proxy node
    → forget_node lib proxy h ≡ done node (record h { priv = update h.priv node null })
unfolding forget_node
forget_node-run lib h proxy node is = rw (
  is.proxy_live,
  is.forth,
  valid-ne_null h.live node is.live,
  is.live,
  is.back,
  ==_refl proxy,
  is.live,
)

-- The owner of `proxy` is the node `owner`, whose proxy is another one.
pub record IsOwned (h : Store) (proxy owner owner_proxy : Ptr) : Type 0 where
  pub held_by : h.proxy_owner proxy ≡ owner
  pub owned_by : IsProxyOf h owner_proxy owner
  pub other : (owner_proxy == proxy) ≡ false

shared_run :
    (lib : Libxml) (k : ℕ) (h : Store) (proxy : Ptr)
    → 0 < k
    → valid h.proxy_live proxy ≡ true
    → 1 < h.proxy_count proxy
    → h.proxy_count proxy < 2 ^ 31
    → pmm_refcnt_dec lib k proxy h
      ≡ done
          (h.proxy_count proxy)
          (record h { proxy_count = update h.proxy_count proxy (h.proxy_count proxy - 1) })
shared_run lib zero h proxy some_fuel = elim some_fuel [ ]
shared_run lib (suc k) h proxy some_fuel = pmm_refcnt_dec-shared lib k h proxy

-- The store once `proxy` is gone, `node` has none and the owner's proxy has a reference less.
abbrev pub let_go : Store → Ptr → Ptr → Ptr → Store
let_go h proxy node owner_proxy = record h {
  proxy_count = update (update h.proxy_count proxy 0) owner_proxy (h.proxy_count owner_proxy - 1);
  priv = update h.priv node null;
  proxy_node = update h.proxy_node proxy null;
  proxy_owner = update h.proxy_owner proxy null;
  proxy_live = update h.proxy_live proxy false;
}

pub pmm_refcnt_dec-run :
    (lib : Libxml) (k : ℕ) (h : Store) (proxy node owner owner_proxy : Ptr)
    → IsProxyOf h proxy node
    → IsOwned h proxy owner owner_proxy
    → (owner == node) ≡ false
    → h.proxy_count proxy ≡ 1
    → (h.parent node == null) ≡ false
    → 1 < h.proxy_count owner_proxy
    → h.proxy_count owner_proxy < 2 ^ 31
    → FreesProxy lib proxy
    → 0 < k
    → pmm_refcnt_dec lib (suc k) proxy h ≡ done 1 (let_go h proxy node owner_proxy)
unfolding pmm_refcnt_dec warn_below_zero free_if_root pmm_ownerpo int_dec not_positive
pmm_refcnt_dec-run lib k h proxy node owner owner_proxy is owned other one inside many small frees
      some_fuel =
    let vp = is.proxy_live in
    let np = valid-ne_null h.proxy_live proxy vp in
    let by = owned.owned_by in
    let no = valid-ne_null h.live owner by.live in
    let nop = valid-ne_null h.proxy_live owner_proxy by.proxy_live in
    let g0 = record h { proxy_count = update h.proxy_count proxy 0 } in
    let g = record g0 {
      priv = update h.priv node null;
      proxy_node = update h.proxy_node proxy null;
      proxy_owner = update h.proxy_owner proxy null;
    } in
    let count : g.proxy_count owner_proxy ≡ h.proxy_count owner_proxy = rw owned.other in
    let is0 : IsProxyOf g0 proxy node = record {
      proxy_live = vp;
      live = is.live;
      forth = is.forth;
      back = is.back;
    } in
    rw (
      np,
      vp,
      one,
      vp,
      forget_node-run lib g0 proxy node is0,
      vp,
      vp,
      owned.held_by,
      vp,
      no,
      by.live,
      other,
      by.back,
      nop,
      vp,
      valid-ne_null h.live node is.live,
      is.live,
      inside,
      shared_run lib k g owner_proxy some_fuel by.proxy_live (rw count many) (rw count small),
      frees
          (record g {
            proxy_count = update g.proxy_count owner_proxy (g.proxy_count owner_proxy - 1);
          })
          vp,
      owned.other,
    )

-- Let `proxy` stand for `node` with its last reference, in the tree of an owner whose own proxy has more
-- than one reference and less than 2^31; let `node` have a parent, and let xmlFree take back the one
-- block. PmmREFCNT_dec then frees the proxy and not the node, which has no proxy any more
-- and stays where it is in the tree, and takes one reference off the owner's proxy.
pub pmm_refcnt_dec-last :
    (lib : Libxml) (k : ℕ) (h : Store) (proxy node owner owner_proxy : Ptr)
    → IsProxyOf h proxy node
    → IsOwned h proxy owner owner_proxy
    → (owner == node) ≡ false
    → h.proxy_count proxy ≡ 1
    → (h.parent node == null) ≡ false
    → 1 < h.proxy_count owner_proxy
    → h.proxy_count owner_proxy < 2 ^ 31
    → FreesProxy lib proxy
    → 0 < k
    → Returns (pmm_refcnt_dec lib (suc k) proxy h) (λ c g.
      (c ≡ 1)
      × (g.priv node ≡ null)
      × (g.proxy_live proxy ≡ false)
      × (g.live ≡ h.live)
      × (g.parent ≡ h.parent)
      × (g.children ≡ h.children)
      × (g.proxy_count owner_proxy ≡ h.proxy_count owner_proxy - 1))
pmm_refcnt_dec-last lib k h proxy node owner owner_proxy is owned other one inside many small frees
      some_fuel =
    rw
      (pmm_refcnt_dec-run lib k h proxy node owner owner_proxy is owned other one inside many small
        frees some_fuel)
      (refl, ground arith, ground arith, refl, refl, refl, ground (arith, owned.other))
