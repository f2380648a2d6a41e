-- ===== src/Examples/Stores.antt =====
-- A small document with a fragment, some proxies and a character buffer; and libxml2 functions.
use perl_xml_lib_xml.Common.{true, false, none, some, List, [], ◌∷◌, ◌==◌, ltb, if◌then◌else◌}
use perl_xml_lib_xml.Store.{
  Ptr, null, NodeType, element, document, document_frag, text, Store, update,
}
use perl_xml_lib_xml.Store.Outcome.{done}
use perl_xml_lib_xml.Libxml.{Libxml}

abbrev pub at : List (Ptr × Ptr) → Ptr → Ptr
at [] p = 0
at ((a, b) ∷ r) p = if p == a then b else at r p

abbrev some_kind : Ptr → NodeType
some_kind p =
    if p == 1 then document else if p == 9 then document_frag else if p == 6 then text else element

-- The document 1 holds the element 8, which holds 2 and 3; 2 holds 4, and 3 holds 5, 6 and 7. The
-- fragment 9 holds 10 and 11, and 12 is on its own. 4 has the proxy 100, and the document has 101.
-- The element 2 declares the namespaces 300 and 301, and 302 is another declaration.
-- The character buffer 200 has the chunks 201, full, and 202, empty.
abbrev pub small_store : Store
small_store = record {
  live = λ p. ltb p 20;
  kind = some_kind;
  name = λ p. none;
  children = at ((1, 8) ∷ (8, 2) ∷ (2, 4) ∷ (3, 5) ∷ (9, 10) ∷ []);
  last = at ((1, 8) ∷ (8, 3) ∷ (2, 4) ∷ (3, 7) ∷ (9, 11) ∷ []);
  parent =
      at ((8, 1) ∷ (2, 8) ∷ (3, 8) ∷ (4, 2) ∷ (5, 3) ∷ (6, 3) ∷ (7, 3) ∷ (10, 9) ∷ (11, 9) ∷ []);
  next = at ((2, 3) ∷ (5, 6) ∷ (6, 7) ∷ (10, 11) ∷ []);
  prev = at ((3, 2) ∷ (6, 5) ∷ (7, 6) ∷ (11, 10) ∷ []);
  doc = λ p. 1;
  ns = λ p. null;
  ns_def = at ((2, 300) ∷ []);
  properties = λ p. null;
  content = λ p. none;
  priv = at ((4, 100) ∷ (1, 101) ∷ []);
  psvi = λ p. null;
  int_subset = λ p. null;
  ext_subset = λ p. null;
  encoding = λ p. none;
  ns_live = λ p. (if p == 302 then true else if p == 301 then true else p == 300);
  ns_next = at ((300, 301) ∷ []);
  ns_prefix = λ p. none;
  ns_href = λ p. none;
  proxy_live = λ p. (if p == 100 then true else p == 101);
  proxy_node = at ((100, 4) ∷ (101, 1) ∷ []);
  proxy_owner = at ((100, 1) ∷ []);
  proxy_count = at ((100, 1) ∷ (101, 2) ∷ []);
  proxy_encoding = λ p. 0;
  psvi_status = λ p. 0;
  buf_live = λ p. p == 200;
  buf_head = at ((200, 201) ∷ []);
  buf_tail = at ((200, 202) ∷ []);
  chunk_live = λ p. (if p == 201 then true else p == 202);
  chunk_next = at ((201, 202) ∷ []);
  chunk_text = λ p. if p == 201 then some (b'a' ∷ b'b' ∷ []) else none;
  chunk_len = at ((201, 2) ∷ []);
  local_live = λ p. (if p == 400 then true else p == 401);
  local_proxy = at ((400, 100) ∷ []);
  local_count = at ((400, 1) ∷ []);
  ctxt_live = λ p. p == 500;
  ctxt_private = at ((500, 501) ∷ []);
  ctxt_sax = λ p. null;
  sax_live = λ p. p == 501;
  sax_ns_stack = at ((501, 8) ∷ []);
  sax_ns_stack_root = at ((501, 1) ∷ []);
  sax_locator = λ p. none;
  sax_handler = at ((501, 600) ∷ []);
  sax_parser = at ((501, 601) ∷ []);
  sax_saved_error = λ p. null;
  sax_charbuf = at ((501, 200) ∷ []);
  sax_joinchars = at ((501, 1) ∷ []);
  calls = [];
  reports = [];
}

-- libxml2 functions that do nothing, but for those that hand out and take back memory.
abbrev pub small_lib : Libxml
small_lib = record {
  str_equal = λ a b. true;
  str_dup = λ a. a;
  str_cat = λ a b. a;
  split_qname2 = λ a. (none, none);
  search_ns = λ d p s h. done null h;
  search_ns_by_href = λ d p s h. done null h;
  copy_namespace = λ p h. done null h;
  new_ns = λ p a b h. done null h;
  free_ns_list = λ p h. done tt h;
  malloc_proxy =
      λ h. done 102 (record h { proxy_live = λ q. if q == 102 then true else h.proxy_live q });
  malloc_chunk =
      λ h. done 203 (record h { chunk_live = λ q. if q == 203 then true else h.chunk_live q });
  malloc_buffer =
      λ h. done 204 (record h { buf_live = λ q. if q == 204 then true else h.buf_live q });
  free_chunk = λ p h. done tt (record h { chunk_live = update h.chunk_live p false });
  free_buffer = λ p h. done tt h;
  free_proxy = λ p h. done tt (record h { proxy_live = update h.proxy_live p false });
  new_text = λ s h. done null h;
  new_doc_fragment = λ d h. done null h;
  add_sibling = λ p q h. done q h;
  replace_node = λ p q h. done p h;
  unlink_node = λ p h. done tt h;
  free_node = λ p h. done tt h;
  free_node_list = λ p h. done tt h;
  free_doc = λ p h. done tt h;
  free_prop = λ p h. done tt h;
  free_dtd = λ p h. done tt h;
  copy_node = λ p n h. done null h;
  copy_prop = λ p q h. done null h;
  copy_doc = λ p b h. done null h;
  copy_dtd = λ p h. done null h;
  doc_copy_node = λ p q h. done null h;
  set_tree_doc = λ p q h. done tt h;
  set_list_doc = λ p q h. done tt h;
  parse_balanced_chunk = λ p s h. done (0, null) h;
  node_set_content = λ p s h. done tt h;
  node_add_content = λ p s h. done tt h;
  cast_node_to_string = λ p h. done none h;
  node_dump = λ p q h. done none h;
  has_ns_prop = λ p a b h. done null h;
  node_set_create = λ p h. done null h;
  node_set_add = λ p q h. done tt h;
  attr_serialize_txt_content = λ p q r s h. done tt h;
  buffer_add = λ p s h. done tt h;
  parse_char_encoding = λ s. 0;
  new_doc = λ h. done null h;
  new_doc_node = λ d n s h. done 21 (record h {
    live = λ q. if q == 21 then true else h.live q;
    parent = update h.parent 21 null;
  });
  add_child = λ p q h. done q (record h { parent = update h.parent q p });
  split_qname = λ a. (a, none);
  str_ncmp_equal = λ a b n. false;
  str_ncat = λ a b n. a;
  malloc_sax_vector = λ h. done null h;
  free_sax_vector = λ p h. done tt (record h { sax_live = update h.sax_live p false });
  malloc_sax = λ h. done null h;
  free_sax = λ p h. done tt h;
  free_parser_ctxt = λ p h. done tt (record h { ctxt_live = update h.ctxt_live p false });
  input_line = λ p h. 1;
  input_col = λ p h. 1;
  input_encoding = λ p h. none;
  input_version = λ p h. none;
  ctxt_version = λ p h. none;
  last_error_is_fatal = λ p h. false;
}
