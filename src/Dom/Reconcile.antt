-- ===== src/Dom/Reconcile.antt =====
-- Removing redundant namespace declarations from a subtree (dom.c: _domReconcileNsAttr,
-- _domReconcileNs, domReconcileNs). `unused` is the list of declarations to free, which the C code
-- updates through a pointer: here each function returns it.
pub mod Plain
pub mod Holder
pub mod Reconciled
use perl_xml_lib_xml.Common.{
  ℕ, zero, suc, Bool, true, false, ◌&&◌, ◌||◌, not, Option, some, [], ◌∷◌, ◌==◌, if◌then◌else◌,
  is_some,
}
use perl_xml_lib_xml.Store.{Ptr, null, Str}
use perl_xml_lib_xml.Store.Kinds.{is_element, is_attribute}
use perl_xml_lib_xml.Store.Outcome.{Cmd, pure, no_fuel, when, ◌>>=◌, ◌>>◌}
use perl_xml_lib_xml.Store.Fields.{
  get_kind, get_doc, get_parent, get_next, get_children, get_properties, get_ns, set_ns,
  get_ns_prefix, get_ns_href,
}
use perl_xml_lib_xml.Libxml.{Libxml}
use perl_xml_lib_xml.Dom.NsDef.{dom_add_ns_def, dom_remove_ns_def, dom_add_ns_chain}

-- "xml"
abbrev pub xml_prefix : Option Str
xml_prefix = some (120 ∷ 109 ∷ 108 ∷ [])

module _ (lib : Libxml) (xml_xml_namespace : Option Str) where
  -- `ns != NULL && ns->href != NULL && own->href != NULL && xmlStrcmp(ns->href, own->href) == 0`
  unfoldable pub same_href : Ptr → Ptr → Cmd Bool
  same_href found own = if found == null then pure false else do
    a ← get_ns_href found
    b ← get_ns_href own
    pure (is_some a && is_some b && lib.str_equal a b)

  -- What the code does, in two places, about the namespace of `holder`, declared on `tree`: `holder`
  -- is the element itself, or one of its attributes.
  unfoldable pub reconcile_holder : ℕ → Ptr → Ptr → Ptr → Cmd Ptr
  reconcile_holder fuel tree holder unused = do
    d ← get_doc tree
    up ← get_parent tree
    own ← get_ns holder
    prefix ← get_ns_prefix own
    found ← lib.search_ns d up prefix
    known ← same_href found own
    removed ← dom_remove_ns_def fuel tree own
    if known
        then (do
          unused' ← if removed then dom_add_ns_chain fuel unused own else pure unused
          set_ns holder found
          pure unused')
        else (do
          if removed then dom_add_ns_def fuel tree own else (do
            copy ← lib.copy_namespace own
            set_ns holder copy
            when (not (copy == null)) (dom_add_ns_def fuel tree copy))
          pure unused)

  unfoldable pub dom_reconcile_ns_attr : ℕ → Ptr → Ptr → Cmd Ptr
  dom_reconcile_ns_attr fuel attr unused = do
    tree ← get_parent attr
    if tree == null then pure unused else do
      own ← get_ns attr
      if own == null then pure unused else do
        prefix ← get_ns_prefix own
        if is_some prefix && lib.str_equal prefix xml_prefix
            then (do
              d ← get_doc tree
              ns ← lib.search_ns_by_href d tree xml_xml_namespace
              set_ns attr ns
              pure unused)
            else reconcile_holder fuel tree attr unused

  -- `while (attr != NULL) { _domReconcileNsAttr(attr, unused); attr = attr->next; }`
  unfoldable pub reconcile_attrs : ℕ → Ptr → Ptr → Cmd Ptr
  reconcile_attrs zero attr unused = no_fuel
  reconcile_attrs (suc k) attr unused = if attr == null then pure unused else do
    unused' ← dom_reconcile_ns_attr (suc k) attr unused
    n ← get_next attr
    reconcile_attrs k n unused'

  -- The namespace of the node itself and those of its attributes.
  unfoldable pub reconcile_here : ℕ → Ptr → Ptr → Cmd Ptr
  reconcile_here fuel tree unused = do
    own ← get_ns tree
    k ← get_kind tree
    unused' ←
        if not (own == null) && (is_element k || is_attribute k)
        then reconcile_holder fuel tree tree unused
        else pure unused
    if is_element k
        then (do attr ← get_properties tree; reconcile_attrs fuel attr unused')
        else pure unused'

  unfoldable mutual
    -- _domReconcileNs
    pub dom_reconcile_ns_tree : ℕ → Ptr → Ptr → Cmd Ptr
    dom_reconcile_ns_tree zero tree unused = no_fuel
    dom_reconcile_ns_tree (suc k) tree unused = do
      unused' ← reconcile_here (suc k) tree unused
      child ← get_children tree
      reconcile_children k child unused'

    -- Its loop over the children.
    pub reconcile_children : ℕ → Ptr → Ptr → Cmd Ptr
    reconcile_children zero child unused = no_fuel
    reconcile_children (suc k) child unused = if child == null then pure unused else do
      unused' ← dom_reconcile_ns_tree k child unused
      n ← get_next child
      reconcile_children k n unused'

  unfoldable pub dom_reconcile_ns : ℕ → Ptr → Cmd (Unit {0})
  dom_reconcile_ns fuel tree = do
    unused ← dom_reconcile_ns_tree fuel tree null
    when (not (unused == null)) (lib.free_ns_list unused)
