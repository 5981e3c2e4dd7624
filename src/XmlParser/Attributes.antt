-- ===== src/XmlParser/Attributes.antt =====
-- The text and the attributes of the nodes of src/XMLParser.cpp.
use cpplib.Prelude.{
  Option, none, some, List, [], ◌∷◌, ◌++◌, if◌then◌else◌, Text, text_key, text_eq, text_eq_iff, ◌≡◌,
  refl, sym, ◌∙◌, ap, arith, inl, inr, Option-cases,
}
use cpplib.OrderedMap.{find, insert}
use cpplib.OrderedMap.Laws.{find-insert}
use cpplib.XmlParser.{XmlNode, get_text, get_attr_str, attr_loop, create_node}

-- The first value that an attribute has in a list of them.
abbrev pub first_value : Text → List (Text × Text) → Text
first_value key [] = []
first_value key ((name, value) ∷ attrs) =
    let rest = first_value key attrs in if text_eq name key then value else rest

abbrev pub attr_of : Option Text → Text → Text
attr_of none rest = rest
attr_of (some value) rest = value

find-attr_loop :
    (key : Text) (attrs before : List (Text × Text))
    → attr_of (find key (attr_loop attrs before)) []
      ≡ attr_of (find key before) (first_value key attrs)
unfolding attr_loop find
find-attr_loop key [] before = refl
find-attr_loop key ((name, value) ∷ attrs) before = ground (
  arith,
  find-attr_loop key attrs (insert name value before),
  find-insert name key value before,
  text_eq_iff name key,
)

get_attr_str-attr_loop :
    (key : Text) (text : Text) (attrs : List (Text × Text))
    → get_attr_str key (record { text = text; attrs = attr_loop attrs [] }) ≡ first_value key attrs
unfolding get_attr_str find
get_attr_str-attr_loop key text attrs =
    let read = find-attr_loop key attrs [] in
    elim (Option-cases (find key (attr_loop attrs []))) [
      | inl e ↦ rw (e, get_attr_str) (sym (ap (λ (o : Option Text). attr_of o []) e) ∙ read)
      | inr (value, e) ↦
          rw (e, get_attr_str) (sym (ap (λ (o : Option Text). attr_of o []) e) ∙ read)
    ]

-- The node made of an element comes last in the vector; its text is that of the element, or empty
-- if there is none; and each attribute reads as the first value that the element has for it, or
-- empty without one.
pub create_node-reads :
    (text : Option Text) (attrs : List (Text × Text)) (nodes : List XmlNode) (key : Text)
    → (node : XmlNode) × (create_node text attrs nodes ≡ nodes ++ node ∷ [])
      × (get_text node ≡ attr_of text [])
      × (get_attr_str key node ≡ first_value key attrs)
unfolding create_node get_text
create_node-reads none attrs nodes key = (
  record { text = []; attrs = attr_loop attrs [] },
  refl,
  refl,
  get_attr_str-attr_loop key [] attrs,
)
create_node-reads (some text) attrs nodes key = (
  record { text = text; attrs = attr_loop attrs [] },
  refl,
  refl,
  get_attr_str-attr_loop key text attrs,
)
