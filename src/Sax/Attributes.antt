-- ===== src/Sax/Attributes.antt =====
-- The hash of an element's attributes, and the namespaces that they declare (perl-libxml-sax.c:
-- PmmGenAttributeHashSV). `attr` is the array of names and values up to its closing NULL.
use perl_xml_lib_xml.Common.{
  Bool, true, false, not, ◌&&◌, Option, none, some, List, [], ◌∷◌, ◌==◌, if◌then◌else◌, is_some,
}
use perl_xml_lib_xml.Hash.{key_name, key_value, string, Hash, Attributes, hv_store}
use perl_xml_lib_xml.Store.{Ptr, null, Str}
use perl_xml_lib_xml.Store.Outcome.{Cmd, pure, ◌>>=◌, ◌>>◌}
use perl_xml_lib_xml.Store.Fields.{get_ns_prefix, get_ns_href}
use perl_xml_lib_xml.Store.MoreFields.{get_sax_ns_stack}
use perl_xml_lib_xml.Libxml.{Libxml}
use perl_xml_lib_xml.Perl.{Perl}
use perl_xml_lib_xml.Sax.Values.{
  sax_value, not_empty, store_name_parts, pmm_get_ns_mapping, pmm_gen_ns_name,
}
use perl_xml_lib_xml.Sax.NsStack.{pmm_add_namespace}

-- "xmlns", "xmlns:" and NSDEFAULTURI, "http://www.w3.org/2000/xmlns/"
abbrev pub xmlns : Str
xmlns = b'x' ∷ b'm' ∷ b'l' ∷ b'n' ∷ b's' ∷ []

abbrev pub xmlns_colon : Str
xmlns_colon = b'x' ∷ b'm' ∷ b'l' ∷ b'n' ∷ b's' ∷ b':' ∷ []

abbrev pub ns_default_uri : Str
ns_default_uri =
    b'h' ∷ b't' ∷ b't' ∷ b'p' ∷ b':' ∷ b'/' ∷ b'/' ∷ b'w' ∷ b'w' ∷ b'w' ∷ b'.' ∷ b'w' ∷ b'3' ∷ b'.'
    ∷ b'o' ∷ b'r' ∷ b'g' ∷ b'/' ∷ b'2' ∷ b'0' ∷ b'0' ∷ b'0' ∷ b'/' ∷ b'x' ∷ b'm' ∷ b'l' ∷ b'n'
    ∷ b's' ∷ b'/' ∷ []

abbrev same_bytes : Str → Str → Bool
same_bytes [] [] = true
same_bytes (a ∷ r) (b ∷ s) = (a == b) && same_bytes r s
same_bytes _ _ = false

-- hv_store with the name `key`: an entry with the same key is replaced.
abbrev pub store_attribute : Attributes → Str → Hash → Attributes
store_attribute [] key hash = (key, hash) ∷ []
store_attribute ((k, v) ∷ r) key hash =
    if same_bytes k key then (key, hash) ∷ r else (k, v) ∷ store_attribute r key hash

unfoldable pub key_bytes : Option Str → Str
key_bytes none = []
key_bytes (some key) = key

unfoldable pub first_of : Option Str → Option Str → Option Str
first_of none name = name
first_of (some localname) name = some localname

-- The attribute's name, and its value if it has one.
unfoldable pub named_value : Str → Option Str → Hash
named_value name none = hv_store [] key_name (string name)
named_value name (some value) =
    hv_store (hv_store [] key_name (string name)) key_value (string value)

module _ (lib : Libxml) (perl : Perl) where
  -- An attribute that is no declaration: its namespace by its prefix; the result goes with the namespace
  -- name that is part of the key.
  unfoldable pub plain_attribute :
      Ptr → Str → Option Str → Option Str → Hash → Cmd (Hash × Option Str)
  plain_attribute sax name localname prefix hash = do
    stack ← get_sax_ns_stack sax
    ns ← if is_some prefix then pmm_get_ns_mapping lib stack prefix else pure null
    if ns == null
        then pure (store_name_parts hash (string []) (string []) (string name), none)
        else (do
          href ← get_ns_href ns
          ns_prefix ← get_ns_prefix ns
          pure (
            store_name_parts hash (sax_value href) (sax_value ns_prefix) (sax_value localname),
            href,
          ))

  unfoldable pub one_attribute :
      Ptr → Str → Option Str → Option Str → Option Str → Ptr → Cmd (Hash × Option Str)
  one_attribute sax name value localname prefix handler =
      let hash = named_value name value in
      if lib.str_equal (some xmlns) (some name)
      then (do
        pmm_add_namespace lib perl sax none value handler
        pure (
          store_name_parts (hv_store hash key_name (string name)) (string []) (string [])
              (string name),
          none,
        ))
      else if lib.str_ncmp_equal (some xmlns_colon) (some name) 6
      then (do
        pmm_add_namespace lib perl sax localname value handler
        pure (
          store_name_parts hash (string ns_default_uri) (sax_value prefix) (sax_value localname),
          some ns_default_uri,
        ))
      else plain_attribute sax name localname prefix hash

  unfoldable pub attribute_loop : Ptr → List (Str × Option Str) → Ptr → Attributes → Cmd Attributes
  attribute_loop sax [] handler attributes = pure attributes
  attribute_loop sax ((name, value) ∷ ta) handler attributes =
      if not (not_empty (some name)) then attribute_loop sax ta handler attributes else (do
        let (localname, prefix) = lib.split_qname (some name)
        entry ← one_attribute sax name value localname prefix handler
        let key = pmm_gen_ns_name lib (first_of localname (some name)) entry.1
        attribute_loop sax ta handler (store_attribute attributes (key_bytes key) entry.0))

  unfoldable pub pmm_gen_attribute_hash_sv : Ptr → List (Str × Option Str) → Ptr → Cmd Attributes
  pmm_gen_attribute_hash_sv sax attr handler = attribute_loop sax attr handler []
