-- ===== src/Store.antt =====
-- The memory that the C code works on: libxml2's nodes and namespace declarations and this library's
-- proxy structures (`struct _ProxyNode`, `struct _DocProxyNode` of perl-libxml-mm.h) and character
-- buffers (`struct CBuffer`, `struct CBufferChunk` of perl-libxml-sax.c), its entries of the registry
-- (`struct _LocalProxyNode`), its SAX state (`PmmSAXVector`) and the two fields of a parser context that
-- the code uses, one function of addresses for each field. `calls` are the method calls that the Perl
-- handlers got, and `reports` the warnings, both the latest first. A pointer is a number and NULL is 0. What a `xmlDocPtr` or `xmlAttrPtr`
-- points to is a node too, since the code casts between them and `xmlNodePtr`.
pub mod Outcome
pub mod Fields
pub mod MoreFields
pub mod Kinds
pub mod Blocks
pub mod Returns
use perl_xml_lib_xml.Common.{ℕ, Bool, true, false, Option, List, ◌==◌, if◌then◌else◌}
use perl_xml_lib_xml.Hash.{Hash, Call}

abbrev pub Ptr : Type 0
Ptr = ℕ

abbrev pub null : Ptr
null = 0

-- The bytes of a C string, without the closing NUL. A `xmlChar *` that may be NULL is an option.
abbrev pub Str : Type 0
Str = List ℕ

-- `xmlElementType`, the kinds of nodes that the code tells apart.
pub data NodeType : Type 0 where
  element attribute text cdata_section entity_ref entity pi comment : NodeType
  document document_type document_frag notation html_document docb_document : NodeType
  dtd element_decl attribute_decl entity_decl namespace_decl : NodeType
  xinclude_start xinclude_end : NodeType

-- What the code raises by `croak`, and what it reports by `xmlGenericError` or `warn`.
pub data Message : Type 0 where
  hierarchy_request_err not_found_err : Message
  refcnt_below_zero out_of_memory buffer_overflow : Message
  too_long_character_data handler_died registry_add_failed registry_remove_failed : Message
  no_encoding_found empty_context not_supported : Message
  unsupported_node_type add_child_failed replacement_failed : Message

pub record Store : Type 0 where
  pub live : Ptr → Bool
  pub kind : Ptr → NodeType
  pub name : Ptr → Option Str
  pub children : Ptr → Ptr
  pub last : Ptr → Ptr
  pub parent : Ptr → Ptr
  pub next : Ptr → Ptr
  pub prev : Ptr → Ptr
  pub doc : Ptr → Ptr
  pub ns : Ptr → Ptr
  pub ns_def : Ptr → Ptr
  pub properties : Ptr → Ptr
  pub content : Ptr → Option Str
  pub priv : Ptr → Ptr
  pub psvi : Ptr → Ptr
  pub int_subset : Ptr → Ptr
  pub ext_subset : Ptr → Ptr
  pub encoding : Ptr → Option Str
  pub ns_live : Ptr → Bool
  pub ns_next : Ptr → Ptr
  pub ns_prefix : Ptr → Option Str
  pub ns_href : Ptr → Option Str
  pub proxy_live : Ptr → Bool
  pub proxy_node : Ptr → Ptr
  pub proxy_owner : Ptr → Ptr
  pub proxy_count : Ptr → ℕ
  pub proxy_encoding : Ptr → ℕ
  pub psvi_status : Ptr → ℕ
  pub buf_live : Ptr → Bool
  pub buf_head : Ptr → Ptr
  pub buf_tail : Ptr → Ptr
  pub chunk_live : Ptr → Bool
  pub chunk_next : Ptr → Ptr
  pub chunk_text : Ptr → Option Str
  pub chunk_len : Ptr → ℕ
  pub local_live : Ptr → Bool
  pub local_proxy : Ptr → Ptr
  pub local_count : Ptr → ℕ
  pub ctxt_live : Ptr → Bool
  pub ctxt_private : Ptr → Ptr
  pub ctxt_sax : Ptr → Ptr
  pub sax_live : Ptr → Bool
  pub sax_ns_stack : Ptr → Ptr
  pub sax_ns_stack_root : Ptr → Ptr
  pub sax_locator : Ptr → Option Hash
  pub sax_handler : Ptr → Ptr
  pub sax_parser : Ptr → Ptr
  pub sax_saved_error : Ptr → Ptr
  pub sax_charbuf : Ptr → Ptr
  pub sax_joinchars : Ptr → ℕ
  pub calls : List Call
  pub reports : List Message

abbrev pub update {ℓ} : {A : Type ℓ} → (Ptr → A) → Ptr → A → Ptr → A
update f p v q = if q == p then v else f q

-- A pointer may be followed if it is not NULL and what it points to is allocated.
unfoldable pub valid : (Ptr → Bool) → Ptr → Bool
valid live p = if p == null then false else live p
