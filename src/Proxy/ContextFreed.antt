-- ===== src/Proxy/ContextFreed.antt =====
-- What counting a context's references down frees (PmmContextREFCNT_dec).
use perl_xml_lib_xml.Common.{
  ℕ, ◌-◌, ◌^◌, ◌<◌, ◌≡◌, refl, true, false, arith, ◌==◌, if◌then◌else◌, ==_refl,
}
use perl_xml_lib_xml.Store.{Ptr, null, Store, update, valid}
use perl_xml_lib_xml.Store.Outcome.{done, ◌>>=◌}
use perl_xml_lib_xml.Store.Returns.{Returns}
use perl_xml_lib_xml.Store.Blocks.{valid-of_fresh}
use perl_xml_lib_xml.Libxml.{Libxml}
use perl_xml_lib_xml.Perl.{Perl}
use perl_xml_lib_xml.Dom.Links.Chains.{valid-ne_null}
use perl_xml_lib_xml.Proxy.Count.{int_inc, int_dec, int_dec_pos, not_positive, not_positive_small}
use perl_xml_lib_xml.Proxy.Node.{pmm_refcnt_inc}
use perl_xml_lib_xml.Proxy.LastReference.{FreesProxy}
use perl_xml_lib_xml.Proxy.Context.{
  pmm_new_context, pmm_context_sv, pmm_sv_context, release_private, release_context,
  pmm_context_refcnt_dec,
}

-- A proxy with more than one reference: PmmContextREFCNT_dec frees it all the same, with the count still
-- positive, and neither the context nor its SAX state.
pub pmm_context_refcnt_dec-shared :
    (lib : Libxml) (perl : Perl) (fuel : ℕ) (h : Store) (proxy : Ptr)
    → valid h.proxy_live proxy ≡ true
    → 1 < h.proxy_count proxy
    → h.proxy_count proxy < 2 ^ 31
    → FreesProxy lib proxy
    → Returns (pmm_context_refcnt_dec lib perl fuel proxy h) (λ c g.
      (c ≡ h.proxy_count proxy)
      × (g.proxy_count proxy ≡ h.proxy_count proxy - 1)
      × (0 < g.proxy_count proxy)
      × (g.proxy_live proxy ≡ false)
      × (g.ctxt_live ≡ h.ctxt_live)
      × (g.sax_live ≡ h.sax_live))
unfolding pmm_context_refcnt_dec
pmm_context_refcnt_dec-shared lib perl fuel h proxy live many small frees =
    let down = int_dec_pos (h.proxy_count proxy) (omega arith) (omega arith) in
    let positive = not_positive_small (h.proxy_count proxy - 1) (omega arith) (omega arith) in
    rw
      (
        valid-ne_null h.proxy_live proxy live,
        live,
        live,
        down,
        live,
        ==_refl proxy,
        positive,
        frees (record h { proxy_count = update h.proxy_count proxy (h.proxy_count proxy - 1) })
            live,
      )
      (
        refl,
        rw (==_refl proxy) refl,
        rw (==_refl proxy) (omega arith),
        rw (==_refl proxy) refl,
        refl,
        refl,
      )

-- `xmlFreeParserCtxt` takes the context back, and touches nothing else that the code can see.
abbrev pub FreesContext : Libxml → Ptr → Type 0
FreesContext lib ctxt =
    (g : Store)
    → valid g.ctxt_live ctxt ≡ true
    → lib.free_parser_ctxt ctxt g ≡ done tt (record g { ctxt_live = update g.ctxt_live ctxt false })

-- The last reference to a context without a SAX state: the context and its proxy are freed.
pub pmm_context_refcnt_dec-last :
    (lib : Libxml) (perl : Perl) (fuel : ℕ) (h : Store) (proxy ctxt : Ptr)
    → valid h.proxy_live proxy ≡ true
    → h.proxy_count proxy ≡ 1
    → h.proxy_node proxy ≡ ctxt
    → valid h.ctxt_live ctxt ≡ true
    → h.ctxt_private ctxt ≡ null
    → FreesContext lib ctxt
    → FreesProxy lib proxy
    → Returns
        (pmm_context_refcnt_dec lib perl fuel proxy h)
        (λ c g. (c ≡ 1) × (g.proxy_live proxy ≡ false) × (g.ctxt_live ctxt ≡ false))
unfolding pmm_context_refcnt_dec release_context release_private int_dec not_positive
pmm_context_refcnt_dec-last lib perl fuel h proxy ctxt live one node ctxt_live no_sax frees_ctxt
      frees =
    let g = record h {
      proxy_count = update h.proxy_count proxy 0;
      proxy_node = update h.proxy_node proxy null;
    } in
    rw
      (
        valid-ne_null h.proxy_live proxy live,
        live,
        one,
        live,
        live,
        ==_refl proxy,
        live,
        node,
        valid-ne_null h.ctxt_live ctxt ctxt_live,
        ctxt_live,
        no_sax,
        live,
        frees_ctxt g ctxt_live,
        frees (record g { ctxt_live = update h.ctxt_live ctxt false }) live,
      )
      (refl, rw (==_refl proxy) refl, rw (==_refl ctxt) refl)

-- `xmlMalloc` hands out the block `proxy` for a proxy.
pub record AllocatesProxy (lib : Libxml) (h : Store) (proxy : Ptr) : Type 0 where
  pub not_null : (proxy == null) ≡ false
  pub result :
      lib.malloc_proxy h
      ≡ done proxy (record h { proxy_live = λ q. if q == proxy then true else h.proxy_live q })

-- The Perl value that PmmContextSv makes for a context gives the context again by PmmSvContext, and holds
-- the one reference to its proxy.
pub pmm_context_sv-pmm_sv_context :
    (lib : Libxml) (h : Store) (ctxt proxy : Ptr)
    → (ctxt == null) ≡ false
    → AllocatesProxy lib h proxy
    → Returns
        ((pmm_context_sv lib ctxt >>= pmm_sv_context) h)
        (λ found g. (found ≡ ctxt) × (g.proxy_count proxy ≡ 1))
unfolding pmm_context_sv pmm_new_context pmm_sv_context pmm_refcnt_inc int_inc
pmm_context_sv-pmm_sv_context lib h ctxt proxy some_ctxt gives =
    let fresh = valid-of_fresh h.proxy_live proxy gives.not_null in
    rw
      (
        some_ctxt,
        gives.result,
        gives.not_null,
        fresh,
        fresh,
        fresh,
        fresh,
        ==_refl proxy,
        fresh,
        gives.not_null,
        fresh,
        ==_refl proxy,
      )
      (refl, refl)
