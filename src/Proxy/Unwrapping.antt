-- ===== src/Proxy/Unwrapping.antt =====
-- From a Perl value to its node (PmmSvNodeExt).
use perl_xml_lib_xml.Common.{◌≡◌, refl, some, ==_refl}
use perl_xml_lib_xml.Store.{Ptr, Store}
use perl_xml_lib_xml.Store.Outcome.{done}
use perl_xml_lib_xml.Dom.Links.Chains.{valid-ne_null}
use perl_xml_lib_xml.Proxy.Sv.{pmm_sv_node}
use perl_xml_lib_xml.Proxy.Counting.{IsProxyOf}

-- PmmSvNodeExt gives the node of a proxy that stands for it.
pub pmm_sv_node-IsProxyOf :
    (h : Store) (proxy node : Ptr)
    → IsProxyOf h proxy node
    → pmm_sv_node (some proxy) h ≡ done node h
unfolding pmm_sv_node
pmm_sv_node-IsProxyOf h proxy node is =
    rw
      (
        valid-ne_null h.proxy_live proxy is.proxy_live,
        is.proxy_live,
        is.forth,
        valid-ne_null h.live node is.live,
        is.live,
        is.back,
        ==_refl proxy,
      )
      refl
