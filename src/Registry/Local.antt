-- ===== src/Registry/Local.antt =====
-- The entries of the registry (PmmNewLocalProxyNode, PmmRegisterProxyNode, PmmUnregisterProxyNode,
-- PmmRegistryLookup, PmmRegistryREFCNT_inc and _dec, PmmCloneProxyNodes). The table that a Perl variable
-- holds is handed in and returned. One thread runs at a time, so that locking does nothing.
use perl_xml_lib_xml.Common.{ℕ, not, Option, none, some, ◌==◌, if◌then◌else◌}
use perl_xml_lib_xml.Store.{Ptr, null, registry_add_failed, registry_remove_failed}
use perl_xml_lib_xml.Store.MoreFields.{
  get_local_proxy, set_local_proxy, get_local_count, set_local_count,
}
use perl_xml_lib_xml.Store.Outcome.{Cmd, pure, croak, ◌>>=◌, ◌>>◌}
use perl_xml_lib_xml.Perl.{Perl}
use perl_xml_lib_xml.Proxy.Count.{int_inc, int_dec}
use perl_xml_lib_xml.Proxy.Node.{pmm_refcnt_inc}
use perl_xml_lib_xml.Registry.Name.{pmm_registry_name}
use perl_xml_lib_xml.Registry.Table.{HashTable}

module _ (perl : Perl) (ht : HashTable) where
  open ht use {Table}

  unfoldable pub pmm_new_local_proxy_node : Ptr → Cmd Ptr
  pmm_new_local_proxy_node proxy = do
    lp ← perl.new_local
    set_local_proxy lp proxy
    set_local_count lp 0
    pure lp

  -- The result of xmlHashAddEntry: the table with the entry, or an error.
  unfoldable pub added_or_croak : Option Table → Ptr → Cmd (Ptr × Table)
  added_or_croak none lp = croak registry_add_failed
  added_or_croak (some t) lp = pure (lp, t)

  unfoldable pub pmm_register_proxy_node : Table → Ptr → Cmd (Ptr × Table)
  pmm_register_proxy_node t proxy = do
    lp ← pmm_new_local_proxy_node proxy
    added_or_croak (ht.add_entry t (pmm_registry_name proxy) lp) lp

  -- xmlHashRemoveEntry hands the entry to PmmRegistryHashDeallocator, which frees it.
  unfoldable pub removed_or_croak : Option Table → Ptr → Cmd Table
  removed_or_croak none lp = croak registry_remove_failed
  removed_or_croak (some t) lp = do perl.free_local lp; pure t

  unfoldable pub pmm_registry_lookup : Table → Ptr → Ptr
  pmm_registry_lookup t proxy = ht.lookup t (pmm_registry_name proxy)

  unfoldable pub pmm_unregister_proxy_node : Table → Ptr → Cmd Table
  pmm_unregister_proxy_node t proxy =
      removed_or_croak (ht.remove_entry t (pmm_registry_name proxy)) (pmm_registry_lookup t proxy)

  -- `lp->count++`
  unfoldable pub count_up : Ptr → Cmd (Unit {0})
  count_up lp = do c ← get_local_count lp; set_local_count lp (int_inc c)

  unfoldable pub pmm_registry_refcnt_inc : Table → Ptr → Cmd Table
  pmm_registry_refcnt_inc t proxy =
      let lp = pmm_registry_lookup t proxy in
      if not (lp == null)
      then (do count_up lp; pure t)
      else (do (fresh, u) ← pmm_register_proxy_node t proxy; count_up fresh; pure u)

  unfoldable pub pmm_registry_refcnt_dec : Table → Ptr → Cmd Table
  pmm_registry_refcnt_dec t proxy =
      let lp = pmm_registry_lookup t proxy in
      if lp == null then pure t else do
        c ← get_local_count lp
        set_local_count lp (int_dec c)
        if int_dec c == 0 then pmm_unregister_proxy_node t proxy else pure t

  unfoldable pub pmm_registry_hash_copier : Ptr → Cmd Ptr
  pmm_registry_hash_copier payload = do
    proxy ← get_local_proxy payload
    lp ← perl.new_local
    c ← get_local_count payload
    set_local_proxy lp proxy
    set_local_count lp c
    pmm_refcnt_inc proxy
    pure lp

  -- The new thread's table.
  unfoldable pub pmm_clone_proxy_nodes : Table → Cmd Table
  pmm_clone_proxy_nodes t = ht.copy t pmm_registry_hash_copier

  unfoldable pub pmm_proxy_node_registry_size : Table → ℕ
  pmm_proxy_node_registry_size t = ht.size t
