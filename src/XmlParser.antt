-- ===== src/XmlParser.antt =====
-- src/XMLParser.cpp on the tree of a document. The library tinyxml is not of the repository: its
-- elements are what its accessors give.
pub mod Select
pub mod Attributes
use cpplib.Prelude.{
  ℤ, pos, negsuc, Bool, true, false, Option, none, some, List, [], ◌∷◌, ◌++◌, if◌then◌else◌, Text,
  codes, text_key, text_eq,
}
use cpplib.OrderedMap
use cpplib.StringUtils.{split_tokens}

-- A `TiXmlElement *`: NULL, or an element with its `Value()`, `GetText()`, attributes,
-- `FirstChildElement()` and `NextSiblingElement()`.
pub data TiXmlElement : Type 0 where
  null : TiXmlElement
  element : Text → Option Text → List (Text × Text) → TiXmlElement → TiXmlElement → TiXmlElement

pub record XmlNode : Type 0 where
  pub text : Text
  pub attrs : List (Text × Text)

unfoldable pub get_text : XmlNode → Text
get_text node = node.text

unfoldable pub get_attr_str : Text → XmlNode → Text
get_attr_str key node = elim (OrderedMap.find key node.attrs) [ none ↦ [] | some value ↦ value ]

pub attrs_to_string : List (Text × Text) → Text → Text
attrs_to_string [] str = str
attrs_to_string ((key, value) ∷ attrs) str =
    attrs_to_string attrs (((str ++ key) ++ codes ":") ++ value ++ codes " ")

unfoldable pub to_string : XmlNode → Text
unfolding attrs_to_string
to_string node =
    let str : Text = elim node.text [
      | [] ↦ []
      | c ∷ text ↦ codes "Text = " ++ (c ∷ text) ++ codes "\n"
    ] in
    elim node.attrs [
      | [] ↦ str
      | attr ∷ attrs ↦ attrs_to_string (attr ∷ attrs) (str ++ codes "Attr = ") ++ codes "\n"
    ]

-- `is_loaded` is the result of the library.
unfoldable pub parse_file : Text → Bool → ℤ
parse_file [] is_loaded = negsuc 0
parse_file (c ∷ file) is_loaded = if is_loaded then pos 0 else negsuc 1

unfoldable pub parse_str : Text → Bool → ℤ
parse_str [] is_parsed = negsuc 0
parse_str (c ∷ str) is_parsed = if is_parsed then pos 0 else negsuc 1

-- The loop of `create_node`: `insert` keeps the attribute that is there.
unfoldable pub attr_loop : List (Text × Text) → List (Text × Text) → List (Text × Text)
attr_loop [] attrs = attrs
attr_loop ((key, value) ∷ more) attrs = attr_loop more (OrderedMap.insert key value attrs)

unfoldable pub create_node : Option Text → List (Text × Text) → List XmlNode → List XmlNode
unfolding attr_loop
create_node text attrs nodes =
    nodes ++ record { text = elim text [ none ↦ [] | some t ↦ t ]; attrs = attr_loop attrs [] } ∷ []

-- The end of `get_node`, where no code has been returned before.
abbrev pub found : List XmlNode → ℤ × List XmlNode
found [] = (negsuc 3, [])
found (node ∷ nodes) = (pos 0, node ∷ nodes)

-- The loop over the children, for the name at the front of the keys: `recurse` is the call of
-- `get_node` on the element itself, none if the name is the last key.
unfoldable pub child_loop :
    Option (TiXmlElement → List XmlNode → ℤ × List XmlNode)
    → Text
    → TiXmlElement
    → List XmlNode
    → ℤ × List XmlNode
unfolding create_node
child_loop recurse front null nodes = found nodes
child_loop none front (element name text attrs children siblings) nodes =
    let same = child_loop none front siblings (create_node text attrs nodes) in
    let other = child_loop none front siblings nodes in if text_eq name front then same else other
child_loop (some get) front (element name text attrs children siblings) nodes =
    let other = child_loop (some get) front siblings nodes in
    if text_eq name front then get (element name text attrs children siblings) nodes else other

unfoldable pub get_element : List Text → TiXmlElement → List XmlNode → ℤ × List XmlNode
unfolding child_loop create_node
get_element keys null nodes = (negsuc 0, nodes)
get_element [] (element name text attrs children siblings) nodes = (negsuc 1, nodes)
get_element (key ∷ []) (element name text attrs children siblings) nodes =
    if text_eq name key then found (create_node text attrs nodes) else (negsuc 2, nodes)
get_element (key ∷ front ∷ []) (element name text attrs children siblings) nodes =
    if text_eq name key then child_loop none front children nodes else (negsuc 2, nodes)
get_element (key ∷ front ∷ next ∷ keys) (element name text attrs children siblings) nodes =
    let rest = child_loop (some (get_element (front ∷ next ∷ keys))) front children nodes in
    if text_eq name key then rest else (negsuc 2, nodes)

abbrev pub delimiters : Text
delimiters = b'/' ∷ 92 ∷ []

unfoldable pub get_nodes : TiXmlElement → Text → List XmlNode → ℤ × List XmlNode
unfolding get_element
get_nodes root [] nodes = (negsuc 0, nodes)
get_nodes root (c ∷ key) nodes =
    get_element (split_tokens (c ∷ key) delimiters [] (negsuc 0)) root []

unfoldable pub get_node : TiXmlElement → Text → XmlNode → ℤ × XmlNode
unfolding get_element
get_node root [] node = (negsuc 0, node)
get_node root (c ∷ key) node =
    let (ret, nodes) = get_element (split_tokens (c ∷ key) delimiters [] (negsuc 0)) root [] in
    (ret, elim nodes [ [] ↦ node | first ∷ rest ↦ first ])
