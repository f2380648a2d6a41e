-- ===== src/Xpath/Find.antt =====
-- Finding by an expression (xpath.c: domXPathFind to domXPathSelectCtxt). libxml2 refuses a node without a
-- document, so that such a tree is put into a temporary one. The fuel bounds the way to the root.
use perl_xml_lib_xml.Common.{
  ℕ, zero, suc, Bool, false, not, ◌&&◌, Option, ◌==◌, if◌then◌else◌, is_some,
}
use perl_xml_lib_xml.Store.{Ptr, null, Str}
use perl_xml_lib_xml.Store.Outcome.{Cmd, pure, no_fuel, when, ◌>>=◌, ◌>>◌}
use perl_xml_lib_xml.Store.Kinds.{is_document}
use perl_xml_lib_xml.Store.Fields.{
  get_kind, get_parent, set_parent, get_doc, set_doc, set_children, set_last,
}
use perl_xml_lib_xml.Libxml.{Libxml}
use perl_xml_lib_xml.Xpath.Engine.{XpathEngine}

-- "find refnode's root node"
unfoldable pub find_root : ℕ → Ptr → Cmd Ptr
find_root zero froot = no_fuel
find_root (suc k) froot =
    if froot == null
    then pure null
    else do parent ← get_parent froot; if parent == null then pure froot else find_root k parent

module _ (lib : Libxml) where
  -- The temporary document, NULL if none is needed, and the root.
  unfoldable pub enter_document : ℕ → Ptr → Cmd (Ptr × Ptr)
  enter_document fuel refnode = do
    doc ← get_doc refnode
    if not (doc == null) then pure (null, refnode) else do
      tdoc ← lib.new_doc
      froot ← find_root fuel refnode
      lib.add_child tdoc froot
      lib.set_tree_doc froot tdoc
      set_doc froot tdoc
      pure (tdoc, froot)

  -- "we need to drop the fake document again"
  unfoldable pub unhook_document : Ptr → Ptr → Cmd (Unit {0})
  unhook_document tdoc froot = do
    lib.set_tree_doc froot null
    set_doc froot null
    set_parent froot null
    set_children tdoc null
    set_last tdoc null

  unfoldable pub leave_document : Ptr → Ptr → Cmd (Unit {0})
  leave_document tdoc froot =
      when (not (tdoc == null)) (do unhook_document tdoc froot; lib.free_doc tdoc)

module _ (xp : XpathEngine) where
  unfoldable pub evaluate : Ptr → Ptr → Bool → Cmd Ptr
  evaluate comp ctxt to_bool =
      if to_bool
      then (do val ← xp.compiled_eval_to_boolean comp ctxt; xp.new_boolean val)
      else xp.compiled_eval comp ctxt

  -- The context for one evaluation.
  unfoldable pub evaluate_at : Ptr → Ptr → Bool → Cmd Ptr
  evaluate_at refnode comp to_bool = do
    doc ← get_doc refnode
    ctxt ← xp.new_context doc
    xp.set_node ctxt refnode
    kind ← get_kind refnode
    namespaces ←
        if is_document kind
        then (do root ← xp.get_root_element doc; xp.get_ns_list doc root)
        else xp.get_ns_list doc refnode
    xp.set_namespaces ctxt namespaces
    xp.register_document_function ctxt
    res ← evaluate comp ctxt to_bool
    xp.free_context ctxt
    pure res

  -- The node set is taken out of the result.
  unfoldable pub take_nodeset : Ptr → Cmd Ptr
  take_nodeset res = do
    rv ←
        if res == null
        then pure null
        else (do rv ← xp.get_nodesetval res; xp.set_nodesetval res null; pure rv)
    xp.free_object res
    pure rv

module _ (lib : Libxml) (xp : XpathEngine) where
  unfoldable pub dom_xpath_comp_find : ℕ → Ptr → Ptr → Bool → Cmd Ptr
  dom_xpath_comp_find fuel refnode comp to_bool =
      if not (refnode == null) && not (comp == null)
      then (do
        hooked ← enter_document lib fuel refnode
        res ← evaluate_at xp refnode comp to_bool
        leave_document lib hooked.0 hooked.1
        pure res)
      else pure null

  unfoldable pub dom_xpath_find : ℕ → Ptr → Option Str → Bool → Cmd Ptr
  dom_xpath_find fuel refnode path to_bool = do
    comp ← xp.compile path
    if comp == null
        then pure null
        else do res ← dom_xpath_comp_find fuel refnode comp to_bool; xp.free_comp comp; pure res

  unfoldable pub dom_xpath_select : ℕ → Ptr → Option Str → Cmd Ptr
  dom_xpath_select fuel refnode path = do
    res ← dom_xpath_find fuel refnode path false
    take_nodeset xp res

  unfoldable pub dom_xpath_comp_select : ℕ → Ptr → Ptr → Cmd Ptr
  dom_xpath_comp_select fuel refnode comp = do
    res ← dom_xpath_comp_find fuel refnode comp false
    take_nodeset xp res

  -- With the caller's context; the context's node may be another one after the evaluation.
  unfoldable pub leave_document_ctxt : Ptr → Ptr → Ptr → Cmd (Unit {0})
  leave_document_ctxt ctxt tdoc froot = when (not (tdoc == null)) (do
    unhook_document lib tdoc froot
    node ← xp.get_node ctxt
    when (not (node == null)) (set_doc node null)
    lib.free_doc tdoc)

  unfoldable pub find_at_node : ℕ → Ptr → Ptr → Ptr → Bool → Cmd Ptr
  find_at_node fuel ctxt node comp to_bool = do
    hooked ← enter_document lib fuel node
    res ← evaluate xp comp ctxt to_bool
    leave_document_ctxt ctxt hooked.0 hooked.1
    pure res

  unfoldable pub dom_xpath_comp_find_ctxt : ℕ → Ptr → Ptr → Bool → Cmd Ptr
  dom_xpath_comp_find_ctxt fuel ctxt comp to_bool = if ctxt == null then pure null else do
    node ← xp.get_node ctxt
    if not (node == null) && not (comp == null)
        then find_at_node fuel ctxt node comp to_bool
        else pure null

  unfoldable pub dom_xpath_find_ctxt : ℕ → Ptr → Option Str → Bool → Cmd Ptr
  dom_xpath_find_ctxt fuel ctxt path to_bool = do
    node ← xp.get_node ctxt
    if not (node == null) && is_some path
        then (do
          comp ← xp.compile path
          if comp == null then pure null else do
            res ← dom_xpath_comp_find_ctxt fuel ctxt comp to_bool
            xp.free_comp comp
            pure res)
        else pure null

  unfoldable pub dom_xpath_select_ctxt : ℕ → Ptr → Option Str → Cmd Ptr
  dom_xpath_select_ctxt fuel ctxt path = do
    res ← dom_xpath_find_ctxt fuel ctxt path false
    take_nodeset xp res
