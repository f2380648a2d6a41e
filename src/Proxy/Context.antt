-- ===== src/Proxy/Context.antt =====
-- The proxies of parser contexts (perl-libxml-mm.c: PmmNewContext, PmmContextREFCNT_dec, PmmContextSv,
-- PmmSvContext). The fuel is that of freeing a character buffer. A Perl value of the class
-- XML::LibXML::ParserContext is the address of a proxy; any other value is `none`.
use perl_xml_lib_xml.Common.{ℕ, not, Option, none, some, ◌∷◌, ◌==◌, if◌then◌else◌}
use perl_xml_lib_xml.Store.{Ptr, null, empty_context}
use perl_xml_lib_xml.Store.Outcome.{Cmd, pure, done, when, ◌>>=◌, ◌>>◌}
use perl_xml_lib_xml.Store.Fields.{
  get_proxy_node, set_proxy_node, set_proxy_owner, get_proxy_count, set_proxy_count,
}
use perl_xml_lib_xml.Store.MoreFields.{get_ctxt_private, set_ctxt_private}
use perl_xml_lib_xml.Libxml.{Libxml}
use perl_xml_lib_xml.Perl.{Perl}
use perl_xml_lib_xml.Proxy.Count.{int_dec, not_positive}
use perl_xml_lib_xml.Proxy.Node.{pmm_refcnt_inc}
use perl_xml_lib_xml.Sax.Context.{pmm_sax_close_context}

-- `warn("empty context")`
unfoldable pub warn_empty_context : Cmd (Unit {0})
warn_empty_context h = done tt (record h { reports = empty_context ∷ h.reports })

module _ (lib : Libxml) where
  unfoldable pub pmm_new_context : Ptr → Cmd Ptr
  pmm_new_context node = do
    proxy ← lib.malloc_proxy
    if not (proxy == null)
        then (do set_proxy_node proxy node; set_proxy_owner proxy null; set_proxy_count proxy 0)
        else warn_empty_context
    pure proxy

  unfoldable pub pmm_context_sv : Ptr → Cmd (Option Ptr)
  pmm_context_sv ctxt =
      if ctxt == null
      then pure none
      else do proxy ← pmm_new_context ctxt; pmm_refcnt_inc proxy; pure (some proxy)

unfoldable pub pmm_sv_context : Option Ptr → Cmd Ptr
pmm_sv_context none = pure null
pmm_sv_context (some proxy) = if proxy == null then pure null else get_proxy_node proxy

module _ (lib : Libxml) (perl : Perl) where
  -- The SAX state of the context, or what else its `_private` holds.
  unfoldable pub release_private : ℕ → Ptr → Ptr → Cmd (Unit {0})
  release_private fuel node libnode = do
    priv ← get_ctxt_private libnode
    when (not (priv == null)) (do
      if not (priv == node)
          then pmm_sax_close_context lib perl fuel libnode
          else lib.free_proxy priv
      set_ctxt_private libnode null)

  unfoldable pub release_context : ℕ → Ptr → Cmd (Unit {0})
  release_context fuel node = do
    libnode ← get_proxy_node node
    when (not (libnode == null)) (do
      release_private fuel node libnode
      set_proxy_node node null
      lib.free_parser_ctxt libnode)

  unfoldable pub pmm_context_refcnt_dec : ℕ → Ptr → Cmd ℕ
  pmm_context_refcnt_dec fuel node = if node == null then pure 0 else do
    retval ← get_proxy_count node
    set_proxy_count node (int_dec retval)
    count ← get_proxy_count node
    when (not_positive count) (release_context fuel node)
    lib.free_proxy node
    pure retval
