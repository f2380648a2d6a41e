-- ===== src/Arrays/Copied.antt =====
-- What an array of strings becomes, and what is given back afterwards.
use perl_xml_lib_xml.Common.{List, [], ◌∷◌}
use perl_xml_lib_xml.Store.{Str, Store}
use perl_xml_lib_xml.Strings.NoNul.{NoNul}
use perl_xml_lib_xml.Arrays.CharPtrPtr.{Element, string_element}

abbrev pub string_elements : List Str → List Element
string_elements [] = []
string_elements (s ∷ r) = string_element s ∷ string_elements r
