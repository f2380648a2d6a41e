-- ===== src/Xpath/Engine.antt =====
-- The XPath engine of libxml2 as the code calls it. libxml2 is not part of the repository, so it is a
-- parameter of the model.
use perl_xml_lib_xml.Common.{Bool, Option, List}
use perl_xml_lib_xml.Store.{Ptr, Str}
use perl_xml_lib_xml.Store.Outcome.{Cmd}

-- A value on the stack of the evaluation: a node set, which may be NULL, a string, or another kind.
pub data XpathValue : Type 0 where
  node_set : Option (List Ptr) → XpathValue
  xpath_string : Option Str → XpathValue
  other_value : XpathValue

pub data XpathError : Type 0 where
  invalid_arity invalid_type : XpathError

pub record XpathEngine : Type 0 where
  -- xmlXPathCompile, xmlXPathFreeCompExpr.
  pub compile : Option Str → Cmd Ptr
  pub free_comp : Ptr → Cmd (Unit {0})
  -- xmlXPathNewContext, the fields `node` and `namespaces` with `nsNr`, xmlXPathFreeContext; xmlGetNsList,
  -- of which NULL is the empty list, and xmlDocGetRootElement.
  pub new_context : Ptr → Cmd Ptr
  pub get_node : Ptr → Cmd Ptr
  pub set_node : Ptr → Ptr → Cmd (Unit {0})
  pub set_namespaces : Ptr → List Ptr → Cmd (Unit {0})
  pub free_context : Ptr → Cmd (Unit {0})
  pub get_ns_list : Ptr → Ptr → Cmd (List Ptr)
  pub get_root_element : Ptr → Cmd Ptr
  -- Registering the function `document`, which may run while an expression is evaluated.
  pub register_document_function : Ptr → Cmd (Unit {0})
  -- xmlXPathCompiledEval, xmlXPathCompiledEvalToBoolean, xmlXPathNewBoolean, xmlXPathFreeObject, and the
  -- field `nodesetval`.
  pub compiled_eval : Ptr → Ptr → Cmd Ptr
  pub compiled_eval_to_boolean : Ptr → Ptr → Cmd Bool
  pub new_boolean : Bool → Cmd Ptr
  pub free_object : Ptr → Cmd (Unit {0})
  pub get_nodesetval : Ptr → Cmd Ptr
  pub set_nodesetval : Ptr → Ptr → Cmd (Unit {0})
  -- The stack of a parser context: its top, valuePop, valuePush; xmlXPathStringFunction; `ctxt->error`.
  pub stack_top : Ptr → Cmd (Option XpathValue)
  pub value_pop : Ptr → Cmd XpathValue
  pub value_push : Ptr → XpathValue → Cmd (Unit {0})
  pub string_function : Ptr → Cmd (Unit {0})
  pub set_error : Ptr → XpathError → Cmd (Unit {0})
  -- xmlXPathNodeSetMerge; xmlNodeGetBase, xmlBuildURI, `doc->URL`, xmlParseFile, `ctxt->context->node`.
  pub node_set_merge : Option (List Ptr) → Option (List Ptr) → Option (List Ptr)
  pub node_get_base : Ptr → Ptr → Cmd (Option Str)
  pub build_uri : Str → Option Str → Option Str
  pub get_url : Ptr → Cmd (Option Str)
  pub parse_file : Str → Cmd Ptr
  pub context_node : Ptr → Cmd Ptr
