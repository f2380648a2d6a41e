-- ===== src/Registry/Restored.antt =====
-- Wrapping a node and destroying the wrapper, in a Perl with interpreter threads.
use perl_xml_lib_xml.Common.{ℕ, suc, ◌+◌, ◌-◌, ◌^◌, ◌<◌, ◌≡◌, ap, ◌∙◌, true, false, arith, ==_refl}
use mathlib.Core.Path.{fun_ext, subst}
use perl_xml_lib_xml.Store.{Ptr, Store, update, valid}
use perl_xml_lib_xml.Store.Outcome.{◌>>=◌}
use perl_xml_lib_xml.Store.Returns.{Returns, Returns-after}
use perl_xml_lib_xml.Libxml.{Libxml}
use perl_xml_lib_xml.Perl.{Perl}
use perl_xml_lib_xml.Dom.Links.Chains.{valid-ne_null}
use perl_xml_lib_xml.Proxy.Count.{int_inc, int_inc_small}
use perl_xml_lib_xml.Proxy.Node.{has_doc_proxy}
use perl_xml_lib_xml.Proxy.Sv.{proxy_with_owner, copy_encoding}
use perl_xml_lib_xml.Proxy.Counting.{
  IsProxyOf, pmm_new_node-twice, pmm_refcnt_inc-run, pmm_refcnt_dec-shared,
}
use perl_xml_lib_xml.Registry.Table.{HashTable}
use perl_xml_lib_xml.Registry.Entries.{Counts, IsRegistry, AllocatesLocal, FreesLocals, with_locals}
use perl_xml_lib_xml.Registry.Counts.{
  pmm_registry_refcnt_inc-IsRegistry, pmm_registry_refcnt_dec-IsRegistry,
}
use perl_xml_lib_xml.Registry.Threaded.{pmm_node_to_sv_threads, destroy_threads}

abbrev with_count : Store → (Ptr → ℕ) → Store
with_count h c = record h { proxy_count = c }

-- The registry does not look at the counts of proxies.
IsRegistry-counted :
    (ht : HashTable) (t : ht.Table) (h : Store) (counts : Counts) (c : Ptr → ℕ)
    → IsRegistry ht t h counts
    → IsRegistry ht t (record h { proxy_count = c }) counts
IsRegistry-counted ht t h counts c is = record { absent = is.absent; present = is.present }

IsProxyOf-locals :
    (h g : Store) (proxy node : Ptr)
    → with_locals g h ≡ h
    → IsProxyOf h proxy node
    → IsProxyOf g proxy node
IsProxyOf-locals h g proxy node same is = record {
  proxy_live = rw (ap (λ m. m.proxy_live) same) is.proxy_live;
  live = rw (ap (λ m. m.live) same) is.live;
  forth = rw (ap (λ m. m.proxy_node) same) is.forth;
  back = rw (ap (λ m. m.priv) same) is.back;
}

module _ (lib : Libxml) (perl : Perl) (ht : HashTable) where
  -- Wrapping counts at the registry and at the proxy.
  pmm_node_to_sv_threads-IsRegistry :
      (t : ht.Table) (h : Store) (proxy node owner f : Ptr) (counts : Counts)
      → IsRegistry ht t h counts
      → IsProxyOf h proxy node
      → has_doc_proxy (h.kind node) ≡ false
      → proxy < 2 ^ 63
      → counts proxy + 1 < 2 ^ 31
      → h.proxy_count proxy + 1 < 2 ^ 31
      → AllocatesLocal perl h f
      → Returns (pmm_node_to_sv_threads lib perl ht t node owner h) (λ r g.
        IsRegistry ht r.1 g (update counts proxy (counts proxy + 1))
        × (with_locals g h
            ≡ record h { proxy_count = update h.proxy_count proxy (h.proxy_count proxy + 1) }))
  unfolding pmm_node_to_sv_threads proxy_with_owner copy_encoding
  pmm_node_to_sv_threads-IsRegistry t h proxy node owner f counts reg is kd low room room' gives =
      let inc = pmm_registry_refcnt_inc-IsRegistry perl ht t h proxy f counts reg low room gives in
      rw
        (
          valid-ne_null h.live node is.live,
          is.live,
          is.live,
          is.back,
          pmm_new_node-twice lib h proxy node is,
          valid-ne_null h.proxy_live proxy is.proxy_live,
        )
        (Returns-after _ _
          (λ u g.
            IsRegistry ht u g (update counts proxy (counts proxy + 1)) × (with_locals g h ≡ h))
          _ inc
          λ u g post.
            let is' = IsProxyOf-locals h g proxy node post.1 is in
            let kd' : has_doc_proxy (g.kind node) ≡ false = rw (ap (λ m. m.kind) post.1) kd in
            let same : g.proxy_count ≡ h.proxy_count = ap (λ m. m.proxy_count) post.1 in
            let up : int_inc (h.proxy_count proxy) ≡ h.proxy_count proxy + 1 =
              int_inc_small (h.proxy_count proxy) (omega arith) in
            let c = update h.proxy_count proxy (h.proxy_count proxy + 1) in
            rw (pmm_refcnt_inc-run g proxy is'.proxy_live, is'.live, kd', same, up)
              (
                IsRegistry-counted ht u g (update counts proxy (counts proxy + 1)) c post.0,
                ap (λ (m : Store). with_count m c) post.1,
              ))

  -- Let the registry agree with `counts`, and let `proxy` stand for `node`, which is no document, with an
  -- address below 2^63, at least one reference, and counts that stay below 2^31; let Newc hand out a
  -- block that was not in use, and Safefree take one back. Handing `node` to Perl, in a Perl with
  -- interpreter threads, and destroying that Perl value again leaves a registry that agrees with `counts`,
  -- every reference count as it was, and all else but the registry's entries too.
  pub pmm_node_to_sv_threads-destroy :
      (k : ℕ) (t : ht.Table) (h : Store) (proxy node owner f : Ptr) (counts : Counts)
      → IsRegistry ht t h counts
      → IsProxyOf h proxy node
      → has_doc_proxy (h.kind node) ≡ false
      → proxy < 2 ^ 63
      → counts proxy + 1 < 2 ^ 31
      → 0 < h.proxy_count proxy
      → h.proxy_count proxy + 1 < 2 ^ 31
      → AllocatesLocal perl h f
      → FreesLocals perl
      → Returns
          ((pmm_node_to_sv_threads lib perl ht t node owner >>= λ r.
              destroy_threads lib perl ht (suc k) r.1 proxy)
            h)
          (λ u g. IsRegistry ht u g counts × (with_locals g h ≡ h))
  unfolding destroy_threads
  pmm_node_to_sv_threads-destroy k t h proxy node owner f counts reg is kd low room some_ref room'
        gives frees =
      let more = update counts proxy (counts proxy + 1) in
      let c = update h.proxy_count proxy (h.proxy_count proxy + 1) in
      let here : more proxy ≡ counts proxy + 1 = rw (==_refl proxy) in
      Returns-after _ _
        (λ r g. IsRegistry ht r.1 g more × (with_locals g h ≡ record h { proxy_count = c })) _
        (pmm_node_to_sv_threads-IsRegistry t h proxy node owner f counts reg is kd low room room'
          gives)
        λ r g first.
          Returns-after _ _
            (λ u m. IsRegistry ht u m (update more proxy (more proxy - 1)) × (with_locals m g ≡ g))
            _
            (pmm_registry_refcnt_dec-IsRegistry perl ht r.1 g proxy more first.0 low
              (omega (arith, here)) (omega (arith, here)) frees)
            λ u m second.
              let counted : m.proxy_count ≡ c =
                ap (λ n. n.proxy_count) second.1 ∙ ap (λ n. n.proxy_count) first.1 in
              let alive : valid m.proxy_live proxy ≡ true =
                rw (ap (λ n. n.proxy_live) second.1, ap (λ n. n.proxy_live) first.1)
                  is.proxy_live in
              let two : m.proxy_count proxy ≡ h.proxy_count proxy + 1 =
                rw (counted, ==_refl proxy) in
              let less : update m.proxy_count proxy (m.proxy_count proxy - 1) ≡ h.proxy_count =
                rw counted (fun_ext λ q. ground arith) in
              let fewer : update more proxy (more proxy - 1) ≡ counts = fun_ext λ q. ground arith in
              let back : with_locals m h ≡ with_count h c =
                ap (λ (n : Store). with_locals n h) second.1 ∙ first.1 in
              rw
                (
                  pmm_refcnt_dec-shared lib k m proxy alive (omega (arith, two))
                      (omega (arith, two)),
                  less,
                )
                (
                  IsRegistry-counted ht u m counts h.proxy_count
                      (subst (λ f. IsRegistry ht u m f) fewer second.0),
                  ap (λ (n : Store). with_count n h.proxy_count) back,
                )
