-- ===== src/Examples/Contexts.antt =====
-- The properties of parser contexts and of XPath, on a small store.
use perl_xml_lib_xml.Common.{
  mem, ◌<◌, ◌≡◌, refl, Bool, true, false, none, [], ◌∷◌, arith, ◌==◌, if◌then◌else◌,
}
use perl_xml_lib_xml.Store.{Ptr, null, Store, update, valid}
use perl_xml_lib_xml.Store.Outcome.{done}
use perl_xml_lib_xml.Store.Returns.{Returns}
use perl_xml_lib_xml.Store.Kinds.{is_document}
use perl_xml_lib_xml.Libxml.{Libxml}
use perl_xml_lib_xml.Proxy.Context.{pmm_context_refcnt_dec}
use perl_xml_lib_xml.Proxy.ContextFreed.{pmm_context_refcnt_dec-shared}
use perl_xml_lib_xml.Xpath.Engine.{XpathEngine, other_value}
use perl_xml_lib_xml.Xpath.Find.{evaluate, evaluate_at, dom_xpath_comp_find}
use perl_xml_lib_xml.Xpath.Restored.{DocumentLaws, with_document, dom_xpath_comp_find-restored}
use perl_xml_lib_xml.Examples.Stores.{at, small_store, small_lib}
use perl_xml_lib_xml.Sax.Buffer.Same.{IsBuffer-same}
use perl_xml_lib_xml.Sax.State.{IsSax}
use perl_xml_lib_xml.Sax.Closed.{ClosesWell, pmm_context_refcnt_dec-closes}
use perl_xml_lib_xml.Examples.Buffers.{one_cell, small-IsBuffer}
use perl_xml_lib_xml.Examples.Events.{small-IsSax}
use perl_xml_lib_xml.Examples.Handlers.{small_perl}

pmm_context_refcnt_dec-shared_example :
    Returns (pmm_context_refcnt_dec small_lib small_perl 1 101 small_store) (λ c g.
      (c ≡ 2)
      × (g.proxy_count 101 ≡ 1)
      × (0 < g.proxy_count 101)
      × (g.proxy_live 101 ≡ false)
      × (g.ctxt_live ≡ small_store.ctxt_live)
      × (g.sax_live ≡ small_store.sax_live))
unfolding valid
pmm_context_refcnt_dec-shared_example =
    pmm_context_refcnt_dec-shared small_lib small_perl 1 small_store 101 refl (omega arith)
      (omega arith) (λ g v. refl)

-- The fragment 9 with its children, without a document.
abbrev fragment_store : Store
fragment_store = record small_store { doc = λ p. null }

abbrev in_fragment : Ptr → Bool
in_fragment q = if q == 9 then true else if q == 10 then true else q == 11

-- The temporary document is 22. Freeing it with the fragment below it would free the fragment.
abbrev document_lib : Libxml
document_lib = record small_lib {
  new_doc = λ h. done 22 (with_document h 22);
  add_child = λ s n h. done n (record h {
    parent = update h.parent n s;
    children = update h.children s n;
    last = update h.last s n;
  });
  set_tree_doc = λ n d h. done tt (record h { doc = λ q. if in_fragment q then d else h.doc q });
  free_doc = λ d h. done tt (record h {
    live =
        if h.children d == null
        then update h.live d false
        else (λ q. (if q == d then false else if in_fragment q then false else h.live q));
  });
}

-- An engine that finds 11 whatever the expression is.
abbrev small_engine : XpathEngine
small_engine = record {
  compile = λ s h. done 700 h;
  free_comp = λ p h. done tt h;
  new_context = λ d h. done 701 h;
  get_node = λ c h. done null h;
  set_node = λ c n h. done tt h;
  set_namespaces = λ c l h. done tt h;
  free_context = λ c h. done tt h;
  get_ns_list = λ d n h. done [] h;
  get_root_element = λ d h. done null h;
  register_document_function = λ c h. done tt h;
  compiled_eval = λ p c h. done 11 h;
  compiled_eval_to_boolean = λ p c h. done true h;
  new_boolean = λ b h. done null h;
  free_object = λ p h. done tt h;
  get_nodesetval = λ p h. done null h;
  set_nodesetval = λ p q h. done tt h;
  stack_top = λ c h. done none h;
  value_pop = λ c h. done other_value h;
  value_push = λ c v h. done tt h;
  string_function = λ c h. done tt h;
  set_error = λ c e h. done tt h;
  node_set_merge = λ a b. a;
  node_get_base = λ d n h. done none h;
  build_uri = λ s b. none;
  get_url = λ d h. done none h;
  parse_file = λ s h. done null h;
  context_node = λ c h. done null h;
}

fragment-DocumentLaws : DocumentLaws document_lib fragment_store 22 9 in_fragment
fragment-DocumentLaws = record {
  not_null = refl;
  unused = refl;
  new_doc = refl;
  add_child = λ g first last. refl;
  set_tree_doc = λ g d. refl;
  free_doc = λ g first last. rw first refl;
}

dom_xpath_comp_find-restored_example :
    Returns
      (dom_xpath_comp_find document_lib small_engine 5 10 700 false fragment_store)
      (λ found g.
        (found ≡ 11)
        × (g.live 22 ≡ false)
        × ((q : Ptr)
            → (q == 22) ≡ false
            → (g.live q ≡ fragment_store.live q)
              × (g.doc q ≡ fragment_store.doc q)
              × (g.parent q ≡ fragment_store.parent q)
              × (g.children q ≡ fragment_store.children q)
              × (g.last q ≡ fragment_store.last q)))
unfolding valid evaluate_at evaluate is_document
dom_xpath_comp_find-restored_example =
    dom_xpath_comp_find-restored document_lib small_engine 5 fragment_store 10 700 22 9 11 (9 ∷ [])
      in_fragment false (refl, refl, refl, (refl, refl, refl)) (omega arith) refl refl refl refl
      (λ q i. refl) fragment-DocumentLaws refl

-- The proxy 100 stands for the context 500, with the SAX state 501.
abbrev context_store : Store
context_store = record small_store { proxy_node = at ((100, 500) ∷ []) }

abbrev closing_lib : Libxml
closing_lib = record small_lib {
  free_buffer = λ p h. done tt (record h { buf_live = update h.buf_live p false });
  free_doc = λ p h. done tt (record h { live = update h.live p false });
}

closing-ClosesWell : ClosesWell closing_lib small_perl 501 1 200
closing-ClosesWell = record {
  frees_chunks = λ g p v. refl;
  frees_buffer = λ g. refl;
  frees_table = λ p g. refl;
  frees_doc = λ g. refl;
  frees_state = λ g. refl;
  lets_go = λ p g. refl;
}

context-IsSax : IsSax context_store 500 501 600 200
context-IsSax = record {
  ctxt_live = small-IsSax.ctxt_live;
  state = refl;
  sax_live = small-IsSax.sax_live;
  has_handler = refl;
  some_handler = refl;
  has_buffer = refl;
  joins = refl;
}

pmm_context_refcnt_dec-closes_example :
    Returns (pmm_context_refcnt_dec closing_lib small_perl 10 100 context_store) (λ c g.
      (c ≡ 1)
      × (g.proxy_live 100 ≡ false)
      × (g.ctxt_live 500 ≡ false)
      × (g.sax_live 501 ≡ false)
      × (g.live 1 ≡ false)
      × (g.buf_live 200 ≡ false)
      × (g.chunk_live 202 ≡ false)
      × ((x : Ptr) → mem x (201 ∷ []) ≡ true → g.chunk_live x ≡ false))
unfolding valid
pmm_context_refcnt_dec-closes_example =
    pmm_context_refcnt_dec-closes closing_lib small_perl 10 context_store 100 500 501 600 1 200
      one_cell 202 refl refl refl context-IsSax refl
      (IsBuffer-same small_store context_store 200 one_cell 202
        (record {
          chunk_live = refl;
          chunk_text = refl;
          chunk_len = refl;
          chunk_next = refl;
          buf_live = refl;
          buf_head = refl;
          buf_tail = refl;
        })
        small-IsBuffer)
      (refl, tt) refl closing-ClosesWell (λ g v. refl) (λ g v. refl) (omega arith)
