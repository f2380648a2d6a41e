-- ===== src/Examples/Threads.antt =====
-- The properties of the registry, at the entry of one proxy.
use perl_xml_lib_xml.Common.{
  ◌+◌, ◌^◌, ◌<◌, ◌≤◌, ◌≡◌, ◌≢◌, refl, arith, ◌==◌, if◌then◌else◌, length, All, ==_iff, Bool-cases,
  inl, inr,
}
use perl_xml_lib_xml.Store.{Ptr, null, Str, update, valid}
use perl_xml_lib_xml.Store.Returns.{Returns}
use perl_xml_lib_xml.Registry.Name.{
  pmm_registry_name, name_value, pmm_registry_name-value, pmm_registry_name-wraps,
  pmm_registry_name-injective,
}
use perl_xml_lib_xml.Registry.Local.{pmm_registry_refcnt_inc, pmm_registry_refcnt_dec}
use perl_xml_lib_xml.Registry.Entries.{Counts, IsRegistry, AllocatesLocal, FreesLocals, with_locals}
use perl_xml_lib_xml.Registry.Counts.{
  pmm_registry_refcnt_inc-IsRegistry, pmm_registry_refcnt_dec-IsRegistry,
}
use perl_xml_lib_xml.Proxy.Node.{has_doc_proxy}
use perl_xml_lib_xml.Store.Outcome.{◌>>=◌}
use perl_xml_lib_xml.Registry.Threaded.{pmm_node_to_sv_threads, destroy_threads}
use perl_xml_lib_xml.Registry.Restored.{pmm_node_to_sv_threads-destroy}
use perl_xml_lib_xml.Examples.Stores.{small_store, small_lib}
use perl_xml_lib_xml.Examples.Handlers.{
  small_perl, small_table, same_name, same_name_refl, same_name_ne,
}

pmm_registry_name-value_example :
    (length (pmm_registry_name 1000) ≡ 9)
    × All (λ c. (128 ≤ c) × (c < 256)) (pmm_registry_name 1000)
    × (name_value (pmm_registry_name 1000) ≡ 1000)
pmm_registry_name-value_example = pmm_registry_name-value 1000 (omega arith)

pmm_registry_name-wraps_example : pmm_registry_name (1000 + 2 ^ 63) ≡ pmm_registry_name 1000
pmm_registry_name-wraps_example = pmm_registry_name-wraps 1000

-- The proxy 100 has the entry 400 with one reference.
abbrev one_entry : Str → Ptr
one_entry n = if same_name n (pmm_registry_name 100) then 400 else null

abbrev one_count : Counts
one_count p = if p == 100 then 1 else 0

one-IsRegistry : IsRegistry small_table one_entry small_store one_count
unfolding valid
one-IsRegistry = record {
  absent = λ p small none_left. elim (Bool-cases (p == 100)) [
    | inl e ↦ absurd (ground (arith, none_left))
    | inr e ↦
        let other : pmm_registry_name p ≢ pmm_registry_name 100 = λ same.
          let equal = pmm_registry_name-injective p 100 small (omega arith) same in ground arith in
        rw (same_name_ne (pmm_registry_name p) (pmm_registry_name 100) other) refl
  ];
  present = λ p small some_left. elim (Bool-cases (p == 100)) [
    | inl e ↦
        let same = (==_iff p 100).0 e in
        rw (same, same_name_refl (pmm_registry_name 100)) (refl, refl, refl)
    | inr e ↦ absurd (ground (arith, some_left))
  ];
}

one-AllocatesLocal : AllocatesLocal small_perl small_store 402
one-AllocatesLocal = record { not_null = refl; unused = refl; result = refl }

one-FreesLocals : FreesLocals small_perl
one-FreesLocals g p v = refl

pmm_registry_refcnt_inc-IsRegistry_example :
    Returns (pmm_registry_refcnt_inc small_perl small_table one_entry 4 small_store) (λ u g.
      IsRegistry small_table u g (update one_count 4 1) × (with_locals g small_store ≡ small_store))
pmm_registry_refcnt_inc-IsRegistry_example =
    pmm_registry_refcnt_inc-IsRegistry small_perl small_table one_entry small_store 4 402 one_count
      one-IsRegistry (omega arith) (omega arith) one-AllocatesLocal

pmm_registry_refcnt_dec-IsRegistry_example :
    Returns (pmm_registry_refcnt_dec small_perl small_table one_entry 100 small_store) (λ u g.
      IsRegistry small_table u g (update one_count 100 0)
      × (with_locals g small_store ≡ small_store))
pmm_registry_refcnt_dec-IsRegistry_example =
    pmm_registry_refcnt_dec-IsRegistry small_perl small_table one_entry small_store 100 one_count
      one-IsRegistry (omega arith) (omega arith) (omega arith) one-FreesLocals

pmm_node_to_sv_threads-destroy_example :
    Returns
      ((pmm_node_to_sv_threads small_lib small_perl small_table one_entry 4 null >>= λ r.
          destroy_threads small_lib small_perl small_table 2 r.1 100)
        small_store)
      (λ u g. IsRegistry small_table u g one_count × (with_locals g small_store ≡ small_store))
unfolding has_doc_proxy valid
pmm_node_to_sv_threads-destroy_example =
    pmm_node_to_sv_threads-destroy small_lib small_perl small_table 1 one_entry small_store 100 4
      null 402 one_count one-IsRegistry
      (record { proxy_live = refl; live = refl; forth = refl; back = refl }) refl (omega arith)
      (omega arith) (omega arith) (omega arith) one-AllocatesLocal one-FreesLocals
