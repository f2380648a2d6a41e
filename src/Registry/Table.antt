-- ===== src/Registry/Table.antt =====
-- The hash tables of libxml2 as far as the registry uses them (xmlHashLookup, xmlHashAddEntry,
-- xmlHashRemoveEntry, xmlHashCopy, xmlHashSize), with their documented behaviour: a name has one entry,
-- an entry can be added if there is none and memory is left, and an entry can be removed if there is one.
use perl_xml_lib_xml.Common.{ℕ, ◌≡◌, ◌≢◌, Option, some}
use perl_xml_lib_xml.Store.{Ptr, null, Str}
use perl_xml_lib_xml.Store.Outcome.{Cmd}

pub record HashTable : Type 1 where
  pub Table : Type 0
  pub lookup : Table → Str → Ptr
  pub add_entry : Table → Str → Ptr → Option Table
  pub remove_entry : Table → Str → Option Table
  pub size : Table → ℕ
  -- The copy has, under the same names, what the command makes of the entries.
  pub copy : Table → (Ptr → Cmd Ptr) → Cmd Table
  pub add_ok :
      (t : Table) (n : Str) (p : Ptr) → lookup t n ≡ null → (u : Table) × (add_entry t n p ≡ some u)
  pub lookup_added :
      (t u : Table) (n : Str) (p : Ptr)
      → add_entry t n p ≡ some u
      → (lookup u n ≡ p) × ((m : Str) → m ≢ n → lookup u m ≡ lookup t m)
  pub remove_ok :
      (t : Table) (n : Str) → lookup t n ≢ null → (u : Table) × (remove_entry t n ≡ some u)
  pub lookup_removed :
      (t u : Table) (n : Str)
      → remove_entry t n ≡ some u
      → (lookup u n ≡ null) × ((m : Str) → m ≢ n → lookup u m ≡ lookup t m)
