-- ===== src/Dom/NsDef.antt =====
-- The list of namespace declarations of an element (dom.c: domAddNsDef, domRemoveNsDef,
-- _domAddNsChain). The fuel of a loop bounds the declarations that it visits.
pub mod Declared
pub mod Removed
use perl_xml_lib_xml.Common.{ℕ, zero, suc, Bool, true, false, ◌||◌, ◌==◌, if◌then◌else◌}
use perl_xml_lib_xml.Store.{Ptr, null}
use perl_xml_lib_xml.Store.Outcome.{Cmd, pure, no_fuel, when, ◌>>=◌, ◌>>◌}
use perl_xml_lib_xml.Store.Fields.{get_ns_def, set_ns_def, get_ns_next, set_ns_next}

-- `while (i != NULL && i != ns) i = i->next;`
unfoldable pub find_ns : ℕ → Ptr → Ptr → Cmd Ptr
find_ns zero i ns = no_fuel
find_ns (suc k) i ns =
    if (i == null) || (i == ns) then pure i else do n ← get_ns_next i; find_ns k n ns

unfoldable pub dom_add_ns_def : ℕ → Ptr → Ptr → Cmd (Unit {0})
unfolding find_ns
dom_add_ns_def fuel tree ns = do
  first ← get_ns_def tree
  i ← find_ns fuel first ns
  when (i == null) (do set_ns_next ns first; set_ns_def tree ns)

-- The second loop of domRemoveNsDef.
unfoldable pub remove_ns_after : ℕ → Ptr → Ptr → Cmd Bool
remove_ns_after zero i ns = no_fuel
remove_ns_after (suc k) i ns = if i == null then pure false else do
  n ← get_ns_next i
  if n == ns
      then (do rest ← get_ns_next ns; set_ns_next i rest; set_ns_next ns null; pure true)
      else remove_ns_after k n ns

unfoldable pub dom_remove_ns_def : ℕ → Ptr → Ptr → Cmd Bool
unfolding remove_ns_after
dom_remove_ns_def fuel tree ns = do
  i ← get_ns_def tree
  if ns == i
      then (do n ← get_ns_next i; set_ns_def tree n; set_ns_next ns null; pure true)
      else remove_ns_after fuel i ns

unfoldable pub dom_add_ns_chain : ℕ → Ptr → Ptr → Cmd Ptr
unfolding find_ns
dom_add_ns_chain fuel c ns =
    if c == null
    then pure ns
    else do i ← find_ns fuel c ns; if i == null then (do set_ns_next ns c; pure ns) else pure c
