-- ===== src/Registry/Threaded.antt =====
-- The branches of a Perl with interpreter threads: PmmNodeToSv (perl-libxml-mm.c) and the method DESTROY
-- of XML::LibXML::Node (LibXML.xs). With PmmUSEREGISTRY they keep the registry, whose table is handed in
-- and returned; the lock around it does nothing, since one thread runs at a time. The objects are not
-- shared between threads (threads::shared).
use perl_xml_lib_xml.Common.{ℕ, Option, none, some, ◌==◌, if◌then◌else◌}
use perl_xml_lib_xml.Store.{Ptr, null}
use perl_xml_lib_xml.Store.Fields.{get_kind}
use perl_xml_lib_xml.Store.Outcome.{Cmd, pure, ◌>>=◌, ◌>>◌}
use perl_xml_lib_xml.Libxml.{Libxml}
use perl_xml_lib_xml.Perl.{Perl}
use perl_xml_lib_xml.Proxy.Node.{PerlClass, pmm_node_type_name, pmm_refcnt_inc, pmm_refcnt_dec}
use perl_xml_lib_xml.Proxy.Sv.{proxy_with_owner, copy_encoding}
use perl_xml_lib_xml.Registry.Table.{HashTable}
use perl_xml_lib_xml.Registry.Local.{pmm_registry_refcnt_inc, pmm_registry_refcnt_dec}

module _ (lib : Libxml) (perl : Perl) (ht : HashTable) where
  open ht use {Table}

  unfoldable pub pmm_node_to_sv_threads : Table → Ptr → Ptr → Cmd (Option (PerlClass × Ptr) × Table)
  pmm_node_to_sv_threads t node owner = if node == null then pure (none, t) else do
    kind ← get_kind node
    proxy ← proxy_with_owner lib node owner
    u ← pmm_registry_refcnt_inc perl ht t proxy
    pmm_refcnt_inc proxy
    copy_encoding lib node proxy
    pure (some (pmm_node_type_name kind, proxy), u)

  unfoldable pub destroy_threads : ℕ → Table → Ptr → Cmd Table
  destroy_threads fuel t proxy = do
    u ← pmm_registry_refcnt_dec perl ht t proxy
    pmm_refcnt_dec lib fuel proxy
    pure u
