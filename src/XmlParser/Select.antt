-- ===== src/XmlParser/Select.antt =====
-- What the queries of src/XMLParser.cpp find, against a description of the path they follow.
use cpplib.Prelude.{
  ℕ, ℤ, pos, negsuc, true, false, Option, none, some, List, [], ◌∷◌, ◌++◌, append_assoc, append-nil,
  if◌then◌else◌, Text, text_key, text_eq, ◌≡◌, refl, sym, ◌∙◌, ap, inl, inr, Bool-cases,
}
use cpplib.XmlParser.{
  TiXmlElement, null, element, XmlNode, create_node, found, child_loop, get_element, get_nodes,
  get_node, delimiters,
}
use cpplib.StringUtils.{split_tokens}

-- The children of the first of some siblings with a name: NULL, if there is none.
abbrev pub children_of : Text → TiXmlElement → TiXmlElement
children_of key null = null
children_of key (element name text attrs children siblings) =
    let rest = children_of key siblings in if text_eq name key then children else rest

-- All siblings with a name, in their order.
abbrev pub all_named : Text → TiXmlElement → List XmlNode
all_named key null = []
all_named key (element name text attrs children siblings) =
    let rest = all_named key siblings in
    if text_eq name key then create_node text attrs [] ++ rest else rest

-- Down the first sibling of each name but the last, and then all siblings with the last one.
abbrev pub select : List Text → TiXmlElement → List XmlNode
select [] siblings = []
select (key ∷ []) siblings = all_named key siblings
select (key ∷ next ∷ keys) siblings = select (next ∷ keys) (children_of key siblings)

create_node-append :
    (text : Option Text) (attrs : List (Text × Text)) (nodes rest : List XmlNode)
    → create_node text attrs nodes ++ rest ≡ nodes ++ (create_node text attrs [] ++ rest)
unfolding create_node
create_node-append text attrs nodes rest = append_assoc nodes (create_node text attrs []) rest

child_loop-named :
    (front : Text) (siblings : TiXmlElement) (nodes : List XmlNode)
    → child_loop none front siblings nodes ≡ found (nodes ++ all_named front siblings)
unfolding child_loop create_node
child_loop-named front null nodes = ap (λ (l : List XmlNode). found l) (sym (append-nil nodes))
child_loop-named front (element name text attrs children siblings) nodes =
    elim (Bool-cases (text_eq name front)) [
      | inl same ↦
          rw (same, child_loop)
            (child_loop-named front siblings (create_node text attrs nodes)
              ∙ ap (λ (l : List XmlNode). found l)
                  (create_node-append text attrs nodes (all_named front siblings)))
      | inr other ↦ rw (other, child_loop) (child_loop-named front siblings nodes)
    ]

module _ (recurse : TiXmlElement → List XmlNode → ℤ × List XmlNode)
    (spec : TiXmlElement → List XmlNode) where
  -- The loop for a name that is not the last one, if its recursion is right on every element.
  child_loop-first :
      (front : Text) (siblings : TiXmlElement) (nodes : List XmlNode)
      → ((name : Text) (text : Option Text) (attrs : List (Text × Text))
            (children next : TiXmlElement)
          → text_eq name front ≡ true
          → recurse (element name text attrs children next) nodes ≡ found (nodes ++ spec children))
      → spec null ≡ []
      → child_loop (some recurse) front siblings nodes
        ≡ found (nodes ++ spec (children_of front siblings))
  unfolding child_loop
  child_loop-first front null nodes h e =
      rw e (ap (λ (l : List XmlNode). found l) (sym (append-nil nodes)))
  child_loop-first front (element name text attrs children siblings) nodes h e =
      elim (Bool-cases (text_eq name front)) [
        | inl same ↦ rw (same, child_loop) (h name text attrs children siblings same)
        | inr other ↦ rw (other, child_loop) (child_loop-first front siblings nodes h e)
      ]

-- What `get_element` finds below an element with the name of its first key.
abbrev below : List Text → XmlNode → TiXmlElement → List XmlNode
below [] node children = node ∷ []
below (key ∷ keys) node children = select (key ∷ keys) children

select-null : (key : Text) (keys : List Text) → select (key ∷ keys) null ≡ []
select-null key [] = refl
select-null key (next ∷ keys) = select-null next keys

get_element-below :
    (key next : Text) (keys : List Text) (name : Text) (text : Option Text)
    (attrs : List (Text × Text)) (children siblings : TiXmlElement) (nodes : List XmlNode)
    → text_eq name key ≡ true
    → get_element (key ∷ next ∷ keys) (element name text attrs children siblings) nodes
      ≡ found (nodes ++ select (next ∷ keys) children)
unfolding get_element
get_element-below key next [] name text attrs children siblings nodes same =
    rw (same, get_element) (child_loop-named next children nodes)
get_element-below key next (third ∷ keys) name text attrs children siblings nodes same =
    rw (same, get_element)
      (child_loop-first (get_element (next ∷ third ∷ keys)) (select (third ∷ keys)) next children
        nodes
        (λ name text attrs children siblings same.
          get_element-below next third keys name text attrs children siblings nodes same)
        (select-null third keys))

get_element-wrong :
    (key next : Text) (keys : List Text) (name : Text) (text : Option Text)
    (attrs : List (Text × Text)) (children siblings : TiXmlElement)
    → text_eq name key ≡ false
    → get_element (key ∷ next ∷ keys) (element name text attrs children siblings) []
      ≡ (negsuc 2, [])
unfolding get_element
get_element-wrong key next [] name text attrs children siblings other = rw (other, get_element) refl
get_element-wrong key next (third ∷ keys) name text attrs children siblings other =
    rw (other, get_element) refl

-- The code and the nodes that a list of keys stands for.
abbrev pub expected : List Text → TiXmlElement → ℤ × List XmlNode
expected keys null = (negsuc 0, [])
expected [] (element name text attrs children siblings) = (negsuc 1, [])
expected (key ∷ []) (element name text attrs children siblings) =
    if text_eq name key then (pos 0, create_node text attrs []) else (negsuc 2, [])
expected (key ∷ next ∷ keys) (element name text attrs children siblings) =
    let rest = found (select (next ∷ keys) children) in
    if text_eq name key then rest else (negsuc 2, [])

-- The recursion finds them.
pub get_element_selects :
    (keys : List Text) (root : TiXmlElement) → get_element keys root [] ≡ expected keys root
unfolding get_element create_node
get_element_selects keys null = refl
get_element_selects [] (element name text attrs children siblings) = refl
get_element_selects (key ∷ []) (element name text attrs children siblings) = refl
get_element_selects (key ∷ next ∷ keys) (element name text attrs children siblings) =
    elim (Bool-cases (text_eq name key)) [
      | inl same ↦
          rw (same) (get_element-below key next keys name text attrs children siblings [] same)
      | inr other ↦
          rw other (get_element-wrong key next keys name text attrs children siblings other)
    ]

abbrev pub first_of : XmlNode → List XmlNode → XmlNode
first_of node [] = node
first_of node (first ∷ rest) = first

-- For a key that is not empty, split at `/` and `\`, the two queries give -1 without a root, -2
-- without a name in the key, -3 if the root has not its first name; and otherwise they go down the
-- first child of each name but the last, to all children with the last name there, in the
-- document's order: the code is 0, or -4 if there is none. `get_nodes` gives all, whatever the
-- caller's vector held, and `get_node` the first, or the caller's node if there is none.
pub queries_select :
    (root : TiXmlElement) (c : ℕ) (key : Text) (nodes : List XmlNode) (node : XmlNode)
    → (get_nodes root (c ∷ key) nodes
        ≡ expected (split_tokens (c ∷ key) delimiters [] (negsuc 0)) root)
      × (get_node root (c ∷ key) node ≡ (
        (expected (split_tokens (c ∷ key) delimiters [] (negsuc 0)) root).0,
        first_of node (expected (split_tokens (c ∷ key) delimiters [] (negsuc 0)) root).1,
      ))
unfolding get_nodes get_node
queries_select root c key nodes node =
    let selects = get_element_selects (split_tokens (c ∷ key) delimiters [] (negsuc 0)) root in
    (selects, ap (λ (r : ℤ × List XmlNode). (r.0, first_of node r.1)) selects)
