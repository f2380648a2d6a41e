-- ===== src/Examples/Counts.antt =====
-- The properties of the reference counts, at the proxies of a small document.
use perl_xml_lib_xml.Common.{ℕ, ◌≡◌, refl, true, false, arith}
use perl_xml_lib_xml.Store.{null, valid}
use perl_xml_lib_xml.Store.Outcome.{◌>>=◌}
use perl_xml_lib_xml.Store.Returns.{Returns}
use perl_xml_lib_xml.Proxy.Node.{has_doc_proxy, pmm_refcnt_dec}
use perl_xml_lib_xml.Proxy.Sv.{pmm_node_to_sv}
use perl_xml_lib_xml.Proxy.Counting.{IsProxyOf}
use perl_xml_lib_xml.Proxy.Lifetime.{pmm_node_to_sv-pmm_refcnt_dec}
use perl_xml_lib_xml.Proxy.LastReference.{FreesProxy, IsOwned, pmm_refcnt_dec-last}
use perl_xml_lib_xml.Examples.Stores.{small_store, small_lib}

100-IsProxyOf_4 : IsProxyOf small_store 100 4
unfolding valid
100-IsProxyOf_4 = record { proxy_live = refl; live = refl; forth = refl; back = refl }

101-IsProxyOf_1 : IsProxyOf small_store 101 1
unfolding valid
101-IsProxyOf_1 = record { proxy_live = refl; live = refl; forth = refl; back = refl }

100-IsOwned : IsOwned small_store 100 1 101
100-IsOwned = record { held_by = refl; owned_by = 101-IsProxyOf_1; other = refl }

small-FreesProxy : FreesProxy small_lib 100
small-FreesProxy g v = refl

pmm_refcnt_dec-last_example : Returns (pmm_refcnt_dec small_lib 2 100 small_store) (λ c g.
    (c ≡ 1)
    × (g.priv 4 ≡ null)
    × (g.proxy_live 100 ≡ false)
    × (g.live ≡ small_store.live)
    × (g.parent ≡ small_store.parent)
    × (g.children ≡ small_store.children)
    × (g.proxy_count 101 ≡ 1))
pmm_refcnt_dec-last_example =
    pmm_refcnt_dec-last small_lib 1 small_store 100 4 1 101 100-IsProxyOf_4 100-IsOwned refl refl
      refl (omega arith) (omega arith) small-FreesProxy (omega arith)

pmm_node_to_sv-pmm_refcnt_dec_example :
    Returns
      ((pmm_node_to_sv small_lib 5 101 >>= λ _. pmm_refcnt_dec small_lib 2 102) small_store)
      (λ c g.
        (c ≡ 1)
        × (g.proxy_live ≡ small_store.proxy_live)
        × (g.priv ≡ small_store.priv)
        × ((q : ℕ) → small_store.proxy_live q ≡ true → g.proxy_count q ≡ small_store.proxy_count q)
        × (g ≡ record small_store {
          proxy_live = g.proxy_live;
          proxy_node = g.proxy_node;
          proxy_owner = g.proxy_owner;
          proxy_count = g.proxy_count;
          priv = g.priv;
        }))
unfolding has_doc_proxy valid
pmm_node_to_sv-pmm_refcnt_dec_example =
    pmm_node_to_sv-pmm_refcnt_dec small_lib 1 small_store 102 5 1 101 refl refl refl refl
      101-IsProxyOf_1 refl (omega arith) (omega arith) refl
      (record { not_null = refl; result = refl }) (λ g v. refl) (omega arith)
