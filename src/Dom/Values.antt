-- ===== src/Dom/Values.antt =====
-- Names, values and attributes of nodes (dom.c: domReadWellBalancedString, domName, domGetNodeValue,
-- domSetNodeValue, domGetElementsByTagName and domGetElementsByTagNameNS, domNewNs, domGetAttrNode,
-- domSetAttributeNode, domAttrSerializeContent).
pub mod Found
pub mod Queries
use perl_xml_lib_xml.Common.{
  ℕ, zero, suc, Bool, true, false, ◌&&◌, ◌||◌, not, Option, none, some, [], ◌∷◌, ◌==◌,
  if◌then◌else◌, is_some,
}
use perl_xml_lib_xml.Store.{
  Ptr, null, Str, NodeType, element, attribute, text, cdata_section, entity_ref, pi, comment,
  document, document_frag, html_document, docb_document, element_decl, attribute_decl, entity_decl,
}
use perl_xml_lib_xml.Store.Kinds.{is_attribute, is_entity_decl, is_text, is_entity_ref}
use perl_xml_lib_xml.Store.Outcome.{Cmd, pure, no_fuel, when, ◌>>=◌, ◌>>◌}
use perl_xml_lib_xml.Store.Fields.{
  get_kind, get_name, get_children, set_children, set_last, get_parent, set_parent, get_next,
  set_next, set_prev, get_doc, set_doc, get_ns, get_ns_prefix, get_ns_href, get_properties,
  set_properties, get_content,
}
use perl_xml_lib_xml.Libxml.{Libxml}
use perl_xml_lib_xml.Dom.Links.{dom_import_node}

-- What domName does for a kind of node: its own name, a fixed name, or a name with a prefix.
pub data NameRule : Type 0 where
  own_name : NameRule
  fixed : Str → NameRule
  with_ns_prefix : NameRule
  with_decl_prefix : NameRule

-- "#comment", "#cdata-section", "#text", "#document", "#document-fragment"
abbrev pub comment_name : Str
comment_name = b'#' ∷ b'c' ∷ b'o' ∷ b'm' ∷ b'm' ∷ b'e' ∷ b'n' ∷ b't' ∷ []

abbrev pub cdata_name : Str
cdata_name =
    b'#' ∷ b'c' ∷ b'd' ∷ b'a' ∷ b't' ∷ b'a' ∷ b'-' ∷ b's' ∷ b'e' ∷ b'c' ∷ b't' ∷ b'i' ∷ b'o' ∷ b'n'
    ∷ []

abbrev pub text_name : Str
text_name = b'#' ∷ b't' ∷ b'e' ∷ b'x' ∷ b't' ∷ []

abbrev pub document_name : Str
document_name = b'#' ∷ b'd' ∷ b'o' ∷ b'c' ∷ b'u' ∷ b'm' ∷ b'e' ∷ b'n' ∷ b't' ∷ []

abbrev pub fragment_name : Str
fragment_name =
    b'#' ∷ b'd' ∷ b'o' ∷ b'c' ∷ b'u' ∷ b'm' ∷ b'e' ∷ b'n' ∷ b't' ∷ b'-' ∷ b'f' ∷ b'r' ∷ b'a' ∷ b'g'
    ∷ b'm' ∷ b'e' ∷ b'n' ∷ b't' ∷ []

unfoldable pub name_rule : NodeType → NameRule
name_rule comment = fixed comment_name
name_rule cdata_section = fixed cdata_name
name_rule text = fixed text_name
name_rule document = fixed document_name
name_rule html_document = fixed document_name
name_rule docb_document = fixed document_name
name_rule document_frag = fixed fragment_name
name_rule element = with_ns_prefix
name_rule attribute = with_ns_prefix
name_rule element_decl = with_decl_prefix
name_rule attribute_decl = with_decl_prefix
name_rule _ = own_name

-- Which kinds of nodes have a value (the switch of domGetNodeValue).
unfoldable pub has_value : NodeType → Bool
has_value attribute = true
has_value entity_decl = true
has_value text = true
has_value comment = true
has_value cdata_section = true
has_value pi = true
has_value entity_ref = true
has_value _ = false

-- domSetAttributeNode's walk: `while (prev->next != NULL) prev = prev->next;`
unfoldable pub last_attr : ℕ → Ptr → Cmd Ptr
last_attr zero prev = no_fuel
last_attr (suc k) prev = do n ← get_next prev; if n == null then pure prev else last_attr k n

module _ (lib : Libxml) (xml_xml_namespace : Option Str) where
  unfoldable pub dom_read_well_balanced_string : Ptr → Option Str → Bool → Cmd Ptr
  dom_read_well_balanced_string doc none repair = pure null
  dom_read_well_balanced_string doc (some block) repair = do
    (code, nodes) ← lib.parse_balanced_chunk doc block
    if not (code == 0) && not repair
        then (do lib.free_node_list nodes; pure null)
        else (do lib.set_list_doc nodes doc; pure nodes)

  -- The prefix of an `xmlElement` or `xmlAttribute` declaration, `decl_prefix`, is a field that only
  -- domName reads: it is handed in.
  unfoldable pub dom_name : (Ptr → Option Str) → Ptr → Cmd (Option Str)
  dom_name decl_prefix node =
      if node == null
      then pure none
      else do k ← get_kind node; name ← get_name node; qualify (name_rule k) name
    where
      join : Option Str → Option Str → Option Str
      join none name = lib.str_dup name
      join (some p) name = lib.str_cat (lib.str_cat (lib.str_dup (some p)) (some (b':' ∷ []))) name

      qualify : NameRule → Option Str → Cmd (Option Str)
      qualify own_name name = pure (lib.str_dup name)
      qualify (fixed s) name = pure (lib.str_dup (some s))
      qualify with_ns_prefix name = do
        ns ← get_ns node
        prefix ← if ns == null then pure none else get_ns_prefix ns
        pure (join prefix name)
      qualify with_decl_prefix name = pure (join (decl_prefix node) name)

  -- The loop of domGetNodeValue over the children of an entity declaration.
  unfoldable pub dump_children : ℕ → Ptr → Ptr → Option Str → Cmd (Option Str)
  dump_children zero doc cnode acc = no_fuel
  dump_children (suc k) doc cnode acc = if cnode == null then pure acc else do
    dumped ← lib.node_dump doc cnode
    n ← get_next cnode
    dump_children k doc n (
        if is_some dumped
        then (if is_some acc then lib.str_cat acc dumped else lib.str_dup dumped)
        else acc)

  unfoldable pub dom_get_node_value : ℕ → Ptr → Cmd (Option Str)
  dom_get_node_value fuel n = if n == null then pure none else do
    k ← get_kind n
    if not (has_value k)
        then pure none
        else (if not (is_entity_decl k) then lib.cast_node_to_string n else (do
          content ← get_content n
          first ← get_children n
          doc ← get_doc n
          if is_some content
              then pure (lib.str_dup content)
              else dump_children fuel doc first none))

  unfoldable pub dom_set_node_value : Ptr → Option Str → Cmd (Unit {0})
  dom_set_node_value n val = if n == null then pure tt else do
    k ← get_kind n
    if not (is_attribute k) then lib.node_set_content n (given val) else (do
      first ← get_children n
      when (not (first == null)) (do set_last n null; lib.free_node_list first)
      fresh ← lib.new_text (given val)
      set_children n fresh
      set_parent fresh n
      doc ← get_doc n
      set_doc fresh doc
      set_last n fresh)
    where
      given : Option Str → Option Str
      given none = some []
      given (some v) = some v

  -- Adding a match to the node set, which is made at the first one.
  unfoldable pub add_to_set : Ptr → Ptr → Cmd Ptr
  add_to_set rv cld =
      if rv == null then lib.node_set_create cld else (do lib.node_set_add rv cld; pure rv)

  unfoldable pub tag_name_loop : ℕ → Option Str → Ptr → Ptr → Cmd Ptr
  tag_name_loop zero name cld rv = no_fuel
  tag_name_loop (suc k) name cld rv = if cld == null then pure rv else do
    own ← get_name cld
    rv' ← if lib.str_equal name own then add_to_set rv cld else pure rv
    n ← get_next cld
    tag_name_loop k name n rv'

  unfoldable pub dom_get_elements_by_tag_name : ℕ → Ptr → Option Str → Cmd Ptr
  dom_get_elements_by_tag_name fuel n name =
      if (n == null) || not (is_some name)
      then pure null
      else do first ← get_children n; tag_name_loop fuel name first null

  unfoldable pub tag_name_ns_loop : ℕ → Option Str → Option Str → Ptr → Ptr → Cmd Ptr
  tag_name_ns_loop zero uri name cld rv = no_fuel
  tag_name_ns_loop (suc k) uri name cld rv = if cld == null then pure rv else do
    own ← get_name cld
    ns ← get_ns cld
    same ←
        if not (lib.str_equal name own) || (ns == null)
        then pure false
        else (do href ← get_ns_href ns; pure (lib.str_equal uri href))
    rv' ← if same then add_to_set rv cld else pure rv
    n ← get_next cld
    tag_name_ns_loop k uri name n rv'

  unfoldable pub dom_get_elements_by_tag_name_ns : ℕ → Ptr → Option Str → Option Str → Cmd Ptr
  dom_get_elements_by_tag_name_ns fuel n uri name =
      if not (is_some uri)
      then dom_get_elements_by_tag_name fuel n name
      else if (n == null) || not (is_some name)
      then pure null
      else do first ← get_children n; tag_name_ns_loop fuel uri name first null

  unfoldable pub dom_new_ns : Ptr → Option Str → Option Str → Cmd Ptr
  dom_new_ns elem prefix href = do
    ns ← if elem == null then pure null else (do doc ← get_doc elem; lib.search_ns doc elem prefix)
    if ns == null
        then lib.new_ns elem href prefix
        else (do bound ← get_ns_href ns; pure (if lib.str_equal href bound then ns else null))

  -- The second attempt of domGetAttrNode: by the local name and the namespace of the prefix.
  unfoldable pub attr_by_prefix : Ptr → Option Str → Cmd Ptr
  attr_by_prefix node qname =
      let (localname, prefix) = lib.split_qname2 qname in
      if not (is_some localname) then pure null else do
        doc ← get_doc node
        ns ← lib.search_ns doc node prefix
        if ns == null
            then pure null
            else (do href ← get_ns_href ns; lib.has_ns_prop node localname href)

  unfoldable pub dom_get_attr_node : Ptr → Option Str → Cmd Ptr
  dom_get_attr_node node qname = if not (is_some qname) || (node == null) then pure null else do
    direct ← lib.has_ns_prop node qname none
    ret ← if direct == null then attr_by_prefix node qname else pure direct
    if ret == null
        then pure null
        else (do k ← get_kind ret; pure (if is_attribute k then ret else null))

  -- `attr->next`, `attr->prev` and `node->properties` after the attribute is free.
  unfoldable pub link_attr : ℕ → Ptr → Ptr → Cmd (Unit {0})
  link_attr fuel node attr = when (not (attr == null)) (do
    first ← get_properties node
    if first == null
        then set_properties node attr
        else (do prev ← last_attr fuel first; set_next prev attr; set_prev attr prev))

  unfoldable pub dom_set_attribute_node : ℕ → Ptr → Ptr → Cmd Ptr
  dom_set_attribute_node fuel node attr = if (node == null) || (attr == null) then pure attr else do
    k ← get_kind attr
    if not (is_attribute k) then pure null else (do
      parent ← get_parent attr
      if node == parent then pure attr else (do
        from ← get_doc attr
        to ← get_doc node
        attr' ←
            if not (from == to)
            then dom_import_node lib xml_xml_namespace fuel to attr true true
            else (do lib.unlink_node attr; pure attr)
        link_attr fuel node attr'
        pure attr'))

  unfoldable pub attr_content_loop : ℕ → Ptr → Ptr → Ptr → Cmd (Unit {0})
  attr_content_loop zero buffer attr child = no_fuel
  attr_content_loop (suc k) buffer attr child = if child == null then pure tt else do
    kind ← get_kind child
    doc ← get_doc attr
    content ← get_content child
    name ← get_name child
    if is_text kind
        then lib.attr_serialize_txt_content buffer doc attr content
        else (when (is_entity_ref kind) (do
          lib.buffer_add buffer (some (b'&' ∷ []))
          lib.buffer_add buffer name
          lib.buffer_add buffer (some (b';' ∷ []))))
    n ← get_next child
    attr_content_loop k buffer attr n

  unfoldable pub dom_attr_serialize_content : ℕ → Ptr → Ptr → Cmd (Unit {0})
  dom_attr_serialize_content fuel buffer attr = do
    first ← get_children attr
    attr_content_loop fuel buffer attr first
