-- ===== src/Sax/Values.antt =====
-- The hashes that SAX handlers are given (perl-libxml-sax.c: _C2Sv, _C2Sv_len, PmmGetNsMapping,
-- PmmGenElementSV, PmmGenNsName, PmmGenCharDataSV, PmmGenPISV, PmmGenDTDSV, PmmGenLocator).
use perl_xml_lib_xml.Common.{
  Bool, false, not, Option, none, some, [], ◌∷◌, ◌==◌, if◌then◌else◌, length,
}
use perl_xml_lib_xml.Hash.{
  Key, key_name, key_prefix, key_local_name, key_namespace_uri, key_data, key_target, key_public_id,
  key_system_id, Value, undef, string, Hash, hv_store,
}
use perl_xml_lib_xml.Store.{Ptr, null, Str}
use perl_xml_lib_xml.Store.Outcome.{Cmd, pure, ◌>>=◌}
use perl_xml_lib_xml.Store.Fields.{get_doc, get_name, get_ns_prefix, get_ns_href}
use perl_xml_lib_xml.Store.MoreFields.{get_sax_ns_stack}
use perl_xml_lib_xml.Libxml.{Libxml}

-- _C2Sv; _C2Sv_len is the same for the bytes that its length counts.
unfoldable pub sax_value : Option Str → Value
sax_value none = undef
sax_value (some s) = string s

-- `s != NULL && XML_STR_NOT_EMPTY(s)`
unfoldable pub not_empty : Option Str → Bool
not_empty none = false
not_empty (some []) = false
not_empty (some (c ∷ r)) = not (c == 0)

unfoldable pub store_not_empty : Hash → Key → Option Str → Hash
store_not_empty hash key s = if not_empty s then hv_store hash key (sax_value s) else hash

unfoldable pub pmm_gen_char_data_sv : Option Str → Hash
pmm_gen_char_data_sv text = store_not_empty [] key_data text

unfoldable pub pmm_gen_pi_sv : Option Str → Option Str → Hash
pmm_gen_pi_sv target text =
    if not_empty target
    then hv_store (hv_store [] key_target (sax_value target)) key_data
        (if not_empty text then sax_value text else string [])
    else []

unfoldable pub pmm_gen_dtd_sv : Option Str → Option Str → Option Str → Hash
pmm_gen_dtd_sv name public_id system_id =
    store_not_empty (store_not_empty (store_not_empty [] key_name name) key_public_id public_id)
      key_system_id system_id

-- The locator gives the public and the system id.
unfoldable pub pmm_gen_locator : Option Str → Option Str → Hash
pmm_gen_locator public_id system_id =
    store_not_empty (store_not_empty [] key_public_id public_id) key_system_id system_id

-- The three entries that tell a name apart.
unfoldable pub store_name_parts : Hash → Value → Value → Value → Hash
store_name_parts hash uri prefix local_name =
    hv_store (hv_store (hv_store hash key_namespace_uri uri) key_prefix prefix) key_local_name
      local_name

-- An absent prefix is handed on as the empty string.
unfoldable pub prefix_value : Option Str → Value
prefix_value none = string []
prefix_value (some prefix) = string prefix

abbrev open_brace : Str
open_brace = b'{' ∷ []

abbrev close_brace : Str
close_brace = b'}' ∷ []

module _ (lib : Libxml) where
  unfoldable pub pmm_get_ns_mapping : Ptr → Option Str → Cmd Ptr
  pmm_get_ns_mapping ns_stack prefix =
      if ns_stack == null
      then pure null
      else do doc ← get_doc ns_stack; lib.search_ns doc ns_stack prefix

  unfoldable pub name_parts_by_ns : Ptr → Option Str → Hash → Ptr → Cmd Hash
  name_parts_by_ns sax name hash ns =
      if ns == null
      then pure (store_name_parts hash (string []) (string []) (sax_value name))
      else (do
        href ← get_ns_href ns
        prefix ← get_ns_prefix ns
        stack ← get_sax_ns_stack sax
        top ← get_name stack
        pure (store_name_parts hash (sax_value href) (prefix_value prefix) (sax_value top)))

  unfoldable pub pmm_gen_element_sv : Ptr → Option Str → Cmd Hash
  pmm_gen_element_sv sax name = if not (not_empty name) then pure [] else do
    stack ← get_sax_ns_stack sax
    ns ← pmm_get_ns_mapping stack (lib.split_qname name).1
    name_parts_by_ns sax name (hv_store [] key_name (sax_value name)) ns

  unfoldable pub cat_all : Option Str → Option Str → Option Str
  cat_all s none = s
  cat_all s (some t) = lib.str_ncat s (some t) (length t)

  unfoldable pub pmm_gen_ns_name : Option Str → Option Str → Option Str
  pmm_gen_ns_name none ns_uri = none
  pmm_gen_ns_name (some name) ns_uri =
      let opened = lib.str_ncat none (some open_brace) 1 in
      let closed = lib.str_ncat (cat_all opened ns_uri) (some close_brace) 1 in
      lib.str_ncat closed (some name) (length name)
