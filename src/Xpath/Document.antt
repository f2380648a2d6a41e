-- ===== src/Xpath/Document.antt =====
-- The function `document` of XPath (xpath.c: perlDocumentFunction). Values of the engine are values here, so
-- that copying and freeing them is nothing; to look at the top of an empty stack is a fault. The fuel bounds the calls that it makes of itself.
use perl_xml_lib_xml.Common.{
  ℕ, zero, suc, ◌||◌, Option, none, some, List, [], ◌∷◌, ◌==◌, ltb, if◌then◌else◌,
}
use perl_xml_lib_xml.Store.{Ptr, null, Str}
use perl_xml_lib_xml.Store.Outcome.{Cmd, pure, fault, no_fuel, ◌>>=◌, ◌>>◌}
use perl_xml_lib_xml.Store.Fields.{get_kind, get_parent, get_doc}
use perl_xml_lib_xml.Store.Kinds.{is_attribute}
use perl_xml_lib_xml.Libxml.{Libxml}
use perl_xml_lib_xml.Xpath.Engine.{
  XpathEngine, XpathValue, node_set, xpath_string, invalid_arity, invalid_type,
}

-- `xmlXPathNewNodeSet(node)`
unfoldable pub new_node_set : Ptr → XpathValue
new_node_set node = if node == null then node_set (some []) else node_set (some (node ∷ []))

module _ (lib : Libxml) (xp : XpathEngine) where
  -- The base for the URI: of the first node of the second argument, or of the context's node.
  unfoldable pub base_of : Ptr → Option XpathValue → Cmd (Option Str)
  base_of ctxt (some (node_set (some (target ∷ r)))) = do
    kind ← get_kind target
    holder ← if is_attribute kind then get_parent target else pure target
    doc ← get_doc holder
    xp.node_get_base doc holder
  base_of ctxt obj2 = do node ← xp.context_node ctxt; doc ← get_doc node; xp.node_get_base doc node

  -- The document itself, if it is its own URI, and otherwise what is parsed.
  unfoldable pub load_document : Ptr → Option Str → Cmd XpathValue
  load_document ctxt none = pure (new_node_set null)
  load_document ctxt (some uri) = do
    node ← xp.context_node ctxt
    own ← get_doc node
    url ← xp.get_url own
    if lib.str_equal url (some uri)
        then pure (new_node_set own)
        else (do doc ← xp.parse_file uri; pure (new_node_set doc))

  -- The first argument, as a string.
  unfoldable pub by_string : Ptr → Option XpathValue → XpathValue → Cmd (Unit {0})
  by_string ctxt obj2 (xpath_string none) = xp.value_push ctxt (new_node_set null)
  by_string ctxt obj2 (xpath_string (some s)) = do
    base ← base_of ctxt obj2
    found ← load_document ctxt (xp.build_uri s base)
    xp.value_push ctxt found
  by_string ctxt obj2 _ = pure tt

  unfoldable pub checked_string : Ptr → Option XpathValue → Option XpathValue → Cmd (Unit {0})
  checked_string ctxt obj2 (some (xpath_string s)) = do
    obj ← xp.value_pop ctxt
    by_string ctxt obj2 obj
  checked_string ctxt obj2 none = λ h. fault
  checked_string ctxt obj2 _ = xp.set_error ctxt invalid_type

  -- For each node of the first argument, what the function gives for its string.
  unfoldable pub for_each_node :
      (Ptr → ℕ → Cmd (Unit {0}))
      → Ptr
      → Option XpathValue
      → List Ptr
      → Option (List Ptr)
      → Cmd (Option (List Ptr))
  for_each_node self ctxt obj2 [] found = pure found
  for_each_node self ctxt obj2 (node ∷ r) found = do
    xp.value_push ctxt (new_node_set node)
    xp.string_function ctxt
    xp.value_push ctxt (elim obj2 [ none ↦ new_node_set node | some base ↦ base ])
    self ctxt 2
    newobj ← xp.value_pop ctxt
    for_each_node self ctxt obj2 r
        (xp.node_set_merge found (elim newobj [ node_set set ↦ set | _ ↦ none ]))

  unfoldable pub nodes_of : XpathValue → List Ptr
  nodes_of (node_set (some nodes)) = nodes
  nodes_of _ = []

  unfoldable pub by_value :
      (Ptr → ℕ → Cmd (Unit {0})) → Ptr → Option XpathValue → Option XpathValue → Cmd (Unit {0})
  by_value self ctxt obj2 (some (node_set set)) = do
    obj ← xp.value_pop ctxt
    found ← for_each_node self ctxt obj2 (nodes_of obj) (some [])
    xp.value_push ctxt (node_set found)
  by_value self ctxt obj2 none = λ h. fault
  by_value self ctxt obj2 _ = do
    xp.string_function ctxt
    top ← xp.stack_top ctxt
    checked_string ctxt obj2 top

  -- The second argument, which must be a node set, is taken off the stack.
  unfoldable pub with_arguments :
      (Ptr → ℕ → Cmd (Unit {0})) → Ptr → ℕ → Option XpathValue → Cmd (Unit {0})
  with_arguments self ctxt nargs none = xp.set_error ctxt invalid_type
  with_arguments self ctxt nargs (some (node_set set)) =
      if nargs == 2
      then (do
        obj2 ← xp.value_pop ctxt
        top ← xp.stack_top ctxt
        by_value self ctxt (some obj2) top)
      else by_value self ctxt none (some (node_set set))
  with_arguments self ctxt nargs (some value) =
      if nargs == 2 then xp.set_error ctxt invalid_type else by_value self ctxt none (some value)

  unfoldable pub perl_document_function : ℕ → Ptr → ℕ → Cmd (Unit {0})
  perl_document_function zero ctxt nargs = no_fuel
  perl_document_function (suc k) ctxt nargs =
      if ltb nargs 1 || ltb 2 nargs
      then xp.set_error ctxt invalid_arity
      else (do top ← xp.stack_top ctxt; with_arguments (perl_document_function k) ctxt nargs top)
