-- ===== src/Hash.antt =====
-- The Perl data that the SAX handlers build: hashes from keys to values, what is handed to a method, and
-- the methods that are called (perl-libxml-sax.c). A hash is a list of its entries, in the order of the
-- first insertion; Perl's own order is not relied on.
use perl_xml_lib_xml.Common.{ℕ, Option, none, some, List, [], ◌∷◌, ◌==◌, if◌then◌else◌}

pub data Key : Type 0 where
  key_name key_value key_prefix key_local_name key_namespace_uri : Key
  key_data key_target key_version key_encoding key_public_id key_system_id : Key
  key_line_number key_column_number key_xml_version : Key

-- undef, a string by its bytes, or a number.
pub data Value : Type 0 where
  undef : Value
  string : List ℕ → Value
  number : ℕ → Value

abbrev pub Hash : Type 0
Hash = List (Key × Value)

-- A hash of hashes, its keys by their bytes: the attributes of an element.
abbrev pub Attributes : Type 0
Attributes = List (List ℕ × Hash)

abbrev key_code : Key → ℕ
key_code key_name = 0
key_code key_value = 1
key_code key_prefix = 2
key_code key_local_name = 3
key_code key_namespace_uri = 4
key_code key_data = 5
key_code key_target = 6
key_code key_version = 7
key_code key_encoding = 8
key_code key_public_id = 9
key_code key_system_id = 10
key_code key_line_number = 11
key_code key_column_number = 12
key_code key_xml_version = 13

-- `hv_store`: an entry with the same key is replaced.
abbrev pub hv_store : Hash → Key → Value → Hash
hv_store [] k v = (k, v) ∷ []
hv_store ((j, w) ∷ r) k v = if key_code j == key_code k then (k, v) ∷ r else (j, w) ∷ hv_store r k v

abbrev pub hv_fetch : Hash → Key → Option Value
hv_fetch [] k = none
hv_fetch ((j, w) ∷ r) k = if key_code j == key_code k then some w else hv_fetch r k

-- The callbacks of a handler object, and those of XML::LibXML::_SAXParser.
pub data Method : Type 0 where
  start_prefix_mapping end_prefix_mapping set_document_locator start_document xml_decl : Method
  start_element end_element characters comment_method start_cdata end_cdata : Method
  processing_instruction start_dtd end_dtd : Method
  parser_end_document parser_warning parser_error parser_fatal_error : Method

pub data Payload : Type 0 where
  no_payload : Payload
  fields : Hash → Payload
  element_fields : Hash → Attributes → Payload
  message_at : List ℕ → ℕ → ℕ → Payload

-- A method call on an object.
pub record Call : Type 0 where
  pub object : ℕ
  pub method : Method
  pub payload : Payload
