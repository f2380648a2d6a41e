-- ===== src/Sax/Closed.antt =====
-- Closing the SAX state of a parser context (PmmSAXCloseContext), also with the last reference to the
-- context (PmmContextREFCNT_dec).
use perl_xml_lib_xml.Common.{
  ℕ, ◌+◌, ◌<◌, ◌≡◌, refl, true, false, none, ◌==◌, length, mem, Distinct, ==_refl,
}
use perl_xml_lib_xml.Store.{Ptr, null, Store, update, valid}
use perl_xml_lib_xml.Store.Outcome.{done}
use perl_xml_lib_xml.Store.Returns.{Returns}
use perl_xml_lib_xml.Libxml.{Libxml}
use perl_xml_lib_xml.Perl.{Perl}
use perl_xml_lib_xml.Dom.Links.Chains.{valid-ne_null}
use perl_xml_lib_xml.Proxy.Count.{int_dec, not_positive}
use perl_xml_lib_xml.Proxy.LastReference.{FreesProxy}
use perl_xml_lib_xml.Proxy.Context.{release_private, release_context, pmm_context_refcnt_dec}
use perl_xml_lib_xml.Proxy.ContextFreed.{FreesContext}
use perl_xml_lib_xml.Sax.Buffer.Texts.{Cells, addresses, IsBuffer}
use perl_xml_lib_xml.Sax.Buffer.Same.{IsBuffer-same}
use perl_xml_lib_xml.Sax.Buffer.Purge.{FreesChunks, freed, freed-last, freed-mem, cbuffer_free-run}
use perl_xml_lib_xml.Sax.Context.{pmm_sax_close_context}
use perl_xml_lib_xml.Sax.State.{IsSax}

-- Each block that is freed goes back and nothing else changes; letting go of a Perl value does nothing here.
pub record ClosesWell (lib : Libxml) (perl : Perl) (sax root b : Ptr) : Type 0 where
  pub frees_chunks : FreesChunks lib
  pub frees_buffer :
      (g : Store)
      → lib.free_buffer b g ≡ done tt (record g { buf_live = update g.buf_live b false })
  pub frees_table : (p : Ptr) (g : Store) → lib.free_sax p g ≡ done tt g
  pub frees_doc :
      (g : Store) → lib.free_doc root g ≡ done tt (record g { live = update g.live root false })
  pub frees_state :
      (g : Store)
      → lib.free_sax_vector sax g ≡ done tt (record g { sax_live = update g.sax_live sax false })
  pub lets_go : (p : Ptr) (g : Store) → perl.sv_refcnt_dec p g ≡ done tt g

-- The store after the state was closed.
abbrev closed : Store → Ptr → Ptr → Ptr → Ptr → Cells → Ptr → Store
closed h ctxt sax root b cs t = record h {
  sax_handler = update h.sax_handler sax null;
  chunk_live = freed (addresses cs) t h.chunk_live;
  buf_live = update h.buf_live b false;
  sax_charbuf = update h.sax_charbuf sax null;
  ctxt_sax = update h.ctxt_sax ctxt null;
  sax_parser = update h.sax_parser sax null;
  live = update h.live root false;
  sax_ns_stack_root = update h.sax_ns_stack_root sax null;
  sax_locator = update h.sax_locator sax none;
  sax_live = update h.sax_live sax false;
  ctxt_private = update h.ctxt_private ctxt null;
}

pmm_sax_close_context-run :
    (lib : Libxml) (perl : Perl) (fuel : ℕ) (h : Store) (ctxt sax handler root b : Ptr) (cs : Cells)
    (t : Ptr)
    → IsSax h ctxt sax handler b
    → h.sax_ns_stack_root sax ≡ root
    → IsBuffer h b cs t
    → Distinct (addresses cs)
    → ClosesWell lib perl sax root b
    → length cs + 1 < fuel
    → pmm_sax_close_context lib perl fuel ctxt h ≡ done tt (closed h ctxt sax root b cs t)
unfolding pmm_sax_close_context
pmm_sax_close_context-run lib perl fuel h ctxt sax handler root b cs t is at_root good apart closes
      enough =
    let h1 = record h { sax_handler = update h.sax_handler sax null } in
    let h2 = record h1 {
      chunk_live = freed (addresses cs) t h.chunk_live;
      buf_live = update h.buf_live b false;
      sax_charbuf = update h.sax_charbuf sax null;
    } in
    let h3 = record h2 { ctxt_sax = update h.ctxt_sax ctxt null } in
    let h4 = record h3 { sax_parser = update h.sax_parser sax null } in
    let h5 = record h4 {
      live = update h.live root false;
      sax_ns_stack_root = update h.sax_ns_stack_root sax null;
      sax_locator = update h.sax_locator sax none;
    } in
    rw
      (
        is.ctxt_live,
        is.state,
        is.sax_live,
        is.has_handler,
        is.some_handler,
        closes.lets_go handler h,
        is.sax_live,
        is.sax_live,
        is.has_buffer,
        cbuffer_free-run lib fuel h1 b cs t
            (IsBuffer-same h h1 b cs t
              (record {
                chunk_live = refl;
                chunk_text = refl;
                chunk_len = refl;
                chunk_next = refl;
                buf_live = refl;
                buf_head = refl;
                buf_tail = refl;
              })
              good)
            apart closes.frees_chunks closes.frees_buffer enough,
        is.sax_live,
        is.ctxt_live,
        closes.frees_table (h.ctxt_sax ctxt) h2,
        is.ctxt_live,
        is.sax_live,
        closes.lets_go (h.sax_parser sax) h3,
        is.sax_live,
        is.sax_live,
        at_root,
        closes.frees_doc h4,
        is.sax_live,
        is.sax_live,
        closes.frees_state h5,
        is.ctxt_live,
      )
      refl

uncounted-IsSax :
    (h : Store) (counts : Ptr → ℕ) (ctxt sax handler b : Ptr)
    → IsSax h ctxt sax handler b
    → IsSax (record h { proxy_count = counts }) ctxt sax handler b
uncounted-IsSax h counts ctxt sax handler b is = record {
  ctxt_live = is.ctxt_live;
  state = is.state;
  sax_live = is.sax_live;
  has_handler = is.has_handler;
  some_handler = is.some_handler;
  has_buffer = is.has_buffer;
  joins = is.joins;
}

-- Let the proxy have its last reference and stand for a context with a SAX state that has a handler and
-- joins texts, and let every block that is freed go back. Then PmmContextREFCNT_dec frees the SAX state, its
-- buffer with all chunks, the document of its namespace stack, the context and the proxy. The
-- fuel has to be greater than the number of the chunks.
pub pmm_context_refcnt_dec-closes :
    (lib : Libxml) (perl : Perl) (fuel : ℕ) (h : Store) (proxy ctxt sax handler root b : Ptr)
    (cs : Cells) (t : Ptr)
    → valid h.proxy_live proxy ≡ true
    → h.proxy_count proxy ≡ 1
    → h.proxy_node proxy ≡ ctxt
    → IsSax h ctxt sax handler b
    → h.sax_ns_stack_root sax ≡ root
    → IsBuffer h b cs t
    → Distinct (addresses cs)
    → (sax == proxy) ≡ false
    → ClosesWell lib perl sax root b
    → FreesContext lib ctxt
    → FreesProxy lib proxy
    → length cs + 1 < fuel
    → Returns (pmm_context_refcnt_dec lib perl fuel proxy h) (λ c g.
      (c ≡ 1)
      × (g.proxy_live proxy ≡ false)
      × (g.ctxt_live ctxt ≡ false)
      × (g.sax_live sax ≡ false)
      × (g.live root ≡ false)
      × (g.buf_live b ≡ false)
      × (g.chunk_live t ≡ false)
      × ((x : Ptr) → mem x (addresses cs) ≡ true → g.chunk_live x ≡ false))
unfolding pmm_context_refcnt_dec release_context release_private int_dec not_positive
pmm_context_refcnt_dec-closes lib perl fuel h proxy ctxt sax handler root b cs t live one node is
      at_root good apart other closes frees_ctxt frees enough =
    let h0 = record h { proxy_count = update h.proxy_count proxy 0 } in
    let good0 =
      IsBuffer-same h h0 b cs t
        (record {
          chunk_live = refl;
          chunk_text = refl;
          chunk_len = refl;
          chunk_next = refl;
          buf_live = refl;
          buf_head = refl;
          buf_tail = refl;
        })
        good in
    let is0 = uncounted-IsSax h (update h.proxy_count proxy 0) ctxt sax handler b is in
    let g = record (closed h0 ctxt sax root b cs t) {
      proxy_node = update h.proxy_node proxy null;
      ctxt_private = update (update h.ctxt_private ctxt null) ctxt null;
    } in
    rw
      (
        valid-ne_null h.proxy_live proxy live,
        live,
        one,
        live,
        live,
        ==_refl proxy,
        live,
        node,
        valid-ne_null h.ctxt_live ctxt is.ctxt_live,
        is.ctxt_live,
        is.state,
        valid-ne_null h.sax_live sax is.sax_live,
        other,
        pmm_sax_close_context-run lib perl fuel h0 ctxt sax handler root b cs t is0 at_root good0
            apart closes enough,
        is.ctxt_live,
        live,
        frees_ctxt g is.ctxt_live,
        frees (record g { ctxt_live = update h.ctxt_live ctxt false }) live,
      )
      (
        refl,
        rw (==_refl proxy) refl,
        rw (==_refl ctxt) refl,
        rw (==_refl sax) refl,
        rw (==_refl root) refl,
        rw (==_refl b) refl,
        freed-last (addresses cs) t h.chunk_live,
        λ x inside. freed-mem (addresses cs) t h.chunk_live x inside,
      )
