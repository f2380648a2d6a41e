-- ===== src/Proxy/Counting.antt =====
-- What the reference counts of proxies promise.
use perl_xml_lib_xml.Common.{
  ℕ, suc, ◌-◌, ◌^◌, ◌<◌, ◌≡◌, Bool, true, false, arith, ◌==◌, if◌then◌else◌, ==_refl, some,
}
use perl_xml_lib_xml.Store.{Ptr, null, Store, update, valid}
use perl_xml_lib_xml.Store.Outcome.{done}
use perl_xml_lib_xml.Libxml.{Libxml}
use perl_xml_lib_xml.Dom.Links.Chains.{valid-ne_null}
use perl_xml_lib_xml.Proxy.Count.{int_inc, not_positive_small, is_negative_small, int_dec_pos}
use perl_xml_lib_xml.Proxy.Node.{
  has_doc_proxy, pmm_node_type_name, pmm_refcnt_inc, pmm_new_node, pmm_refcnt_dec, warn_below_zero,
}
use perl_xml_lib_xml.Proxy.Sv.{proxy_with_owner, copy_encoding, pmm_node_to_sv}

-- `proxy` stands for `node`, both ways.
pub record IsProxyOf (h : Store) (proxy node : Ptr) : Type 0 where
  pub proxy_live : valid h.proxy_live proxy ≡ true
  pub live : valid h.live node ≡ true
  pub forth : h.proxy_node proxy ≡ node
  pub back : h.priv node ≡ proxy

-- `xmlMalloc` hands out the block `p`, which was not in use.
pub record Allocates (lib : Libxml) (h : Store) (p : Ptr) : Type 0 where
  pub not_null : (p == null) ≡ false
  pub result :
      lib.malloc_proxy h
      ≡ done p (record h { proxy_live = λ q. if q == p then true else h.proxy_live q })

pub valid-new :
    (live : Ptr → Bool) (p : Ptr)
    → (p == null) ≡ false
    → valid (λ q. if q == p then true else live q) p ≡ true
unfolding valid
valid-new live p ne = rw (ne, ==_refl p)

-- A node that has a live proxy keeps it: PmmNewNode returns that proxy and changes nothing.
pub pmm_new_node-twice :
    (lib : Libxml) (h : Store) (proxy node : Ptr)
    → IsProxyOf h proxy node
    → pmm_new_node lib node h ≡ done proxy h
unfolding pmm_new_node
pmm_new_node-twice lib h proxy node is = rw (
  valid-ne_null h.live node is.live,
  is.live,
  is.back,
  valid-ne_null h.proxy_live proxy is.proxy_live,
)

-- PmmREFCNT_dec on a live proxy with more than one reference, and less than 2^31, returns the old count,
-- takes one reference off and does nothing else.
pub pmm_refcnt_dec-shared :
    (lib : Libxml) (k : ℕ) (h : Store) (proxy : Ptr)
    → valid h.proxy_live proxy ≡ true
    → 1 < h.proxy_count proxy
    → h.proxy_count proxy < 2 ^ 31
    → pmm_refcnt_dec lib (suc k) proxy h
      ≡ done
          (h.proxy_count proxy)
          (record h { proxy_count = update h.proxy_count proxy (h.proxy_count proxy - 1) })
unfolding pmm_refcnt_dec warn_below_zero
pmm_refcnt_dec-shared lib k h proxy vp many small =
    let c = h.proxy_count proxy in
    rw (
      valid-ne_null h.proxy_live proxy vp,
      vp,
      vp,
      int_dec_pos c (omega arith) (omega arith),
      is_negative_small (c - 1) (omega arith),
      not_positive_small (c - 1) (omega arith) (omega arith),
    )

pub pmm_refcnt_inc-run :
    (h : Store) (proxy : Ptr)
    → valid h.proxy_live proxy ≡ true
    → pmm_refcnt_inc proxy h
      ≡ done tt
          (record h { proxy_count = update h.proxy_count proxy (int_inc (h.proxy_count proxy)) })
unfolding pmm_refcnt_inc
pmm_refcnt_inc-run h proxy vp = rw (vp, vp)

-- Handing a node that has a proxy, and is no document, to Perl adds one reference to the proxy.
pub pmm_node_to_sv-run :
    (lib : Libxml) (h : Store) (proxy node owner : Ptr)
    → IsProxyOf h proxy node
    → has_doc_proxy (h.kind node) ≡ false
    → pmm_node_to_sv lib node owner h
      ≡ done
          (some (pmm_node_type_name (h.kind node), proxy))
          (record h { proxy_count = update h.proxy_count proxy (int_inc (h.proxy_count proxy)) })
unfolding pmm_node_to_sv proxy_with_owner copy_encoding
pmm_node_to_sv-run lib h proxy node owner is kd = rw (
  valid-ne_null h.live node is.live,
  is.live,
  is.live,
  is.back,
  pmm_new_node-twice lib h proxy node is,
  valid-ne_null h.proxy_live proxy is.proxy_live,
  pmm_refcnt_inc-run h proxy is.proxy_live,
  is.live,
  kd,
)
