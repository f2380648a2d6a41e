-- ===== src/Store/Kinds.antt =====
-- The tests of a node's kind that the code makes, one for each `type == XML_..._NODE` or `switch`.
use perl_xml_lib_xml.Common.{Bool, true, false}
use perl_xml_lib_xml.Store.{
  NodeType, element, attribute, text, entity_ref, document, document_frag, dtd, entity_decl,
  namespace_decl,
}

unfoldable pub is_element : NodeType → Bool
is_element element = true
is_element _ = false

unfoldable pub is_attribute : NodeType → Bool
is_attribute attribute = true
is_attribute _ = false

unfoldable pub is_text : NodeType → Bool
is_text text = true
is_text _ = false

unfoldable pub is_entity_ref : NodeType → Bool
is_entity_ref entity_ref = true
is_entity_ref _ = false

unfoldable pub is_document : NodeType → Bool
is_document document = true
is_document _ = false

unfoldable pub is_fragment : NodeType → Bool
is_fragment document_frag = true
is_fragment _ = false

unfoldable pub is_dtd : NodeType → Bool
is_dtd dtd = true
is_dtd _ = false

unfoldable pub is_namespace_decl : NodeType → Bool
is_namespace_decl namespace_decl = true
is_namespace_decl _ = false

unfoldable pub is_entity_decl : NodeType → Bool
is_entity_decl entity_decl = true
is_entity_decl _ = false
