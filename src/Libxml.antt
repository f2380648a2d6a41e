-- ===== src/Libxml.antt =====
-- The functions of libxml2 that the code calls. libxml2 is not part of the repository, so they are a
-- parameter of the model: each is any command on the store.
use perl_xml_lib_xml.Common.{ℕ, Bool, Option}
use perl_xml_lib_xml.Store.{Ptr, Str, Store}
use perl_xml_lib_xml.Store.Outcome.{Cmd}

pub record Libxml : Type 0 where
  -- Texts are values: xmlStrEqual, xmlStrcmp(a, b) == 0, xmlStrdup and xmlStrcat.
  pub str_equal : Option Str → Option Str → Bool
  pub str_dup : Option Str → Option Str
  pub str_cat : Option Str → Option Str → Option Str
  -- xmlSplitQName2: the local name and the prefix; the first is absent if there is no prefix.
  pub split_qname2 : Option Str → Option Str × Option Str
  -- Namespaces.
  pub search_ns : Ptr → Ptr → Option Str → Cmd Ptr
  pub search_ns_by_href : Ptr → Ptr → Option Str → Cmd Ptr
  pub copy_namespace : Ptr → Cmd Ptr
  pub new_ns : Ptr → Option Str → Option Str → Cmd Ptr
  pub free_ns_list : Ptr → Cmd (Unit {0})
  -- Nodes. The result of xmlMalloc is the address of a fresh block, or NULL.
  pub malloc_proxy : Cmd Ptr
  pub malloc_chunk : Cmd Ptr
  pub malloc_buffer : Cmd Ptr
  pub free_chunk : Ptr → Cmd (Unit {0})
  pub free_buffer : Ptr → Cmd (Unit {0})
  pub free_proxy : Ptr → Cmd (Unit {0})
  pub new_text : Option Str → Cmd Ptr
  pub new_doc_fragment : Ptr → Cmd Ptr
  -- xmlAddSibling and xmlReplaceNode; the results are NULL if they fail.
  pub add_sibling : Ptr → Ptr → Cmd Ptr
  pub replace_node : Ptr → Ptr → Cmd Ptr
  pub unlink_node : Ptr → Cmd (Unit {0})
  pub free_node : Ptr → Cmd (Unit {0})
  pub free_node_list : Ptr → Cmd (Unit {0})
  pub free_doc : Ptr → Cmd (Unit {0})
  pub free_prop : Ptr → Cmd (Unit {0})
  pub free_dtd : Ptr → Cmd (Unit {0})
  pub copy_node : Ptr → ℕ → Cmd Ptr
  pub copy_prop : Ptr → Ptr → Cmd Ptr
  pub copy_doc : Ptr → Bool → Cmd Ptr
  pub copy_dtd : Ptr → Cmd Ptr
  pub doc_copy_node : Ptr → Ptr → Cmd Ptr
  pub set_tree_doc : Ptr → Ptr → Cmd (Unit {0})
  pub set_list_doc : Ptr → Ptr → Cmd (Unit {0})
  -- xmlParseBalancedChunkMemory: the return code and the nodes.
  pub parse_balanced_chunk : Ptr → Str → Cmd (ℕ × Ptr)
  pub node_set_content : Ptr → Option Str → Cmd (Unit {0})
  pub node_add_content : Ptr → Option Str → Cmd (Unit {0})
  pub cast_node_to_string : Ptr → Cmd (Option Str)
  pub node_dump : Ptr → Ptr → Cmd (Option Str)
  pub has_ns_prop : Ptr → Option Str → Option Str → Cmd Ptr
  -- XPath node sets and output buffers.
  pub node_set_create : Ptr → Cmd Ptr
  pub node_set_add : Ptr → Ptr → Cmd (Unit {0})
  pub attr_serialize_txt_content : Ptr → Ptr → Ptr → Option Str → Cmd (Unit {0})
  pub buffer_add : Ptr → Option Str → Cmd (Unit {0})
  -- xmlParseCharEncoding.
  pub parse_char_encoding : Option Str → ℕ
  -- For SAX: a document, an element in a document, its last child; the local name and the prefix
  -- (xmlSplitQName); xmlStrncmp(a, b, n) == 0; xmlStrncat; and the blocks of the SAX state and of the
  -- table of callbacks.
  pub new_doc : Cmd Ptr
  pub new_doc_node : Ptr → Ptr → Option Str → Cmd Ptr
  pub add_child : Ptr → Ptr → Cmd Ptr
  pub split_qname : Option Str → Option Str × Option Str
  pub str_ncmp_equal : Option Str → Option Str → ℕ → Bool
  pub str_ncat : Option Str → Option Str → ℕ → Option Str
  pub malloc_sax_vector : Cmd Ptr
  pub free_sax_vector : Ptr → Cmd (Unit {0})
  pub malloc_sax : Cmd Ptr
  pub free_sax : Ptr → Cmd (Unit {0})
  pub free_parser_ctxt : Ptr → Cmd (Unit {0})
  -- What a parser context says of its input, `ctxt->version`, and whether its last error is fatal.
  pub input_line : Ptr → Store → ℕ
  pub input_col : Ptr → Store → ℕ
  pub input_encoding : Ptr → Store → Option Str
  pub input_version : Ptr → Store → Option Str
  pub ctxt_version : Ptr → Store → Option Str
  pub last_error_is_fatal : Ptr → Store → Bool
