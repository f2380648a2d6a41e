-- ===== src/Registry/Counts.antt =====
-- The registry keeps, for each proxy, how many Perl values of this thread refer to it.
use perl_xml_lib_xml.Common.{
  ◌+◌, ◌-◌, ◌^◌, ◌<◌, ◌≡◌, refl, true, false, arith, ◌==◌, if◌then◌else◌, ==_refl, ==_iff,
  Bool-cases, inl, inr,
}
use perl_xml_lib_xml.Store.{Ptr, Store, update}
use perl_xml_lib_xml.Store.Blocks.{valid-other, valid-of_fresh, apart_of_live, valid-freed}
use perl_xml_lib_xml.Store.Returns.{Returns}
use perl_xml_lib_xml.Perl.{Perl}
use perl_xml_lib_xml.Dom.Links.Chains.{valid-ne_null}
use perl_xml_lib_xml.Proxy.Count.{int_inc_small, int_dec_pos}
use perl_xml_lib_xml.Registry.Name.{pmm_registry_name}
use perl_xml_lib_xml.Registry.Table.{HashTable}
use perl_xml_lib_xml.Registry.Local.{
  pmm_new_local_proxy_node, added_or_croak, pmm_register_proxy_node, removed_or_croak,
  pmm_registry_lookup, pmm_unregister_proxy_node, count_up, pmm_registry_refcnt_inc,
  pmm_registry_refcnt_dec,
}
use perl_xml_lib_xml.Registry.Entries.{
  Counts, IsRegistry, AllocatesLocal, FreesLocals, other_name, Sets-IsRegistry, entries_apart,
  with_locals,
}

-- Let the registry have the counts `counts` for the proxies with addresses below 2^63, let the proxy's
-- address be one of these and its count plus one be less than 2^31, and let Newc hand out a block that was
-- not in use. Then PmmRegistryREFCNT_inc adds one to the count of the proxy, changes that of no other proxy
-- with an address below 2^63, and changes nothing but entries; a proxy without an entry gets one.
pub pmm_registry_refcnt_inc-IsRegistry :
    (perl : Perl) (ht : HashTable) (t : ht.Table) (h : Store) (p f : Ptr) (counts : Counts)
    → IsRegistry ht t h counts
    → p < 2 ^ 63
    → counts p + 1 < 2 ^ 31
    → AllocatesLocal perl h f
    → Returns
        (pmm_registry_refcnt_inc perl ht t p h)
        (λ u g. IsRegistry ht u g (update counts p (counts p + 1)) × (with_locals g h ≡ h))
unfolding pmm_registry_refcnt_inc pmm_register_proxy_node pmm_new_local_proxy_node
    pmm_registry_lookup count_up added_or_croak
pmm_registry_refcnt_inc-IsRegistry perl ht t h p f counts is sp room gives =
    elim (Bool-cases (counts p == 0)) [
      | inl e ↦
          let empty = is.absent p sp ((==_iff (counts p) 0).0 e) in
          let name = pmm_registry_name p in
          let (u, added) = ht.add_ok t name f empty in
          let law = ht.lookup_added t u name f added in
          let fresh = valid-of_fresh h.local_live f gives.not_null in
          let g = record h {
            local_live = λ q. if q == f then true else h.local_live q;
            local_proxy = update h.local_proxy f p;
            local_count = update (update h.local_count f 0) f 1;
          } in
          let one : counts p + 1 ≡ 1 = ground arith in
          rw
            (
              empty,
              gives.result,
              fresh,
              fresh,
              added,
              fresh,
              fresh,
              ==_refl f,
              int_inc_small 0 (omega arith),
              one,
            )
            (
              (Sets-IsRegistry ht t u h g counts p 1 is (record {
                others = λ q sq ne. law.1 (pmm_registry_name q) (other_name p q sp sq ne);
                keeps = λ q sq ne cq.
                    let old = is.present q sq cq in
                    let apart = apart_of_live h.local_live f _ gives.unused old.0 in
                    (valid-other h.local_live f _ apart old.0, rw apart refl, rw apart refl);
                gone = λ z. absurd (omega arith);
                there = λ some. rw (law.0, ==_refl f) (fresh, refl, refl);
              })),
              refl,
            )
      | inr e ↦
          let lp = ht.lookup t (pmm_registry_name p) in
          let old = is.present p sp (ground arith) in
          let g = record h { local_count = update h.local_count lp (counts p + 1) } in
          rw
            (
              valid-ne_null h.local_live lp old.0,
              old.0,
              old.0,
              old.2,
              int_inc_small (counts p) (omega arith),
            )
            (
              (Sets-IsRegistry ht t t h g counts p (counts p + 1) is (record {
                others = λ q sq ne. refl;
                keeps = λ q sq ne cq.
                    let apart = entries_apart ht t h counts p q is sp sq ne (ground arith) cq in
                    ((is.present q sq cq).0, refl, rw apart refl);
                gone = λ z. absurd (omega arith);
                there = λ some. (old.0, old.1, rw (==_refl lp) refl);
              })),
              refl,
            )
    ]

-- Let the registry have the counts `counts` for the proxies with addresses below 2^63, let the proxy's
-- address be one of these and its count be positive and less than 2^31, and let Safefree take back a block.
-- Then PmmRegistryREFCNT_dec takes one off the count of the proxy, changes that of no other proxy with an
-- address below 2^63, and changes nothing but entries; when the count was one, the proxy has no entry after.
pub pmm_registry_refcnt_dec-IsRegistry :
    (perl : Perl) (ht : HashTable) (t : ht.Table) (h : Store) (p : Ptr) (counts : Counts)
    → IsRegistry ht t h counts
    → p < 2 ^ 63
    → 0 < counts p
    → counts p < 2 ^ 31
    → FreesLocals perl
    → Returns
        (pmm_registry_refcnt_dec perl ht t p h)
        (λ u g. IsRegistry ht u g (update counts p (counts p - 1)) × (with_locals g h ≡ h))
unfolding pmm_registry_refcnt_dec pmm_unregister_proxy_node pmm_registry_lookup removed_or_croak
pmm_registry_refcnt_dec-IsRegistry perl ht t h p counts is sp some_ref room frees =
    let lp = ht.lookup t (pmm_registry_name p) in
    let old = is.present p sp some_ref in
    let g = record h { local_count = update h.local_count lp (counts p - 1) } in
    let down = int_dec_pos (counts p) some_ref (omega arith) in
    elim (Bool-cases (counts p - 1 == 0)) [
      | inl e ↦
          let name = pmm_registry_name p in
          let nn = valid-ne_null h.local_live lp old.0 in
          let (u, removed) = ht.remove_ok t name (λ z. absurd (ground arith)) in
          let law = ht.lookup_removed t u name removed in
          let k = record g { local_live = update h.local_live lp false } in
          rw (nn, old.0, old.0, old.2, down, e, removed, frees g lp old.0)
            (
              (Sets-IsRegistry ht t u h k counts p (counts p - 1) is (record {
                others = λ q sq ne. law.1 (pmm_registry_name q) (other_name p q sp sq ne);
                keeps = λ q sq ne cq.
                    let apart = entries_apart ht t h counts p q is sp sq ne some_ref cq in
                    (
                      valid-freed h.local_live lp _ apart (is.present q sq cq).0,
                      refl,
                      rw apart refl,
                    );
                gone = λ z. law.0;
                there = λ some. absurd (ground arith);
              })),
              refl,
            )
      | inr e ↦
          rw (valid-ne_null h.local_live lp old.0, old.0, old.0, old.2, down, e)
            (
              (Sets-IsRegistry ht t t h g counts p (counts p - 1) is (record {
                others = λ q sq ne. refl;
                keeps = λ q sq ne cq.
                    let apart = entries_apart ht t h counts p q is sp sq ne some_ref cq in
                    ((is.present q sq cq).0, refl, rw apart refl);
                gone = λ z. absurd (ground arith);
                there = λ some. (old.0, old.1, rw (==_refl lp) refl);
              })),
              refl,
            )
    ]
