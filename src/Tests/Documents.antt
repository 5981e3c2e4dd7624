-- ===== src/Tests/Documents.antt =====
-- XMLParser on a small document.
use cpplib.Prelude.{pos, negsuc, none, some, [], ◌∷◌, ◌++◌, Text, codes, text_eq, ◌≡◌, refl}
use cpplib.OrderedMap.{find, insert, place}
use cpplib.StringUtils.{split_tokens}
use cpplib.XmlParser.{
  TiXmlElement, null, element, XmlNode, to_string, get_nodes, get_node, delimiters,
}
use cpplib.XmlParser.Select.{expected, first_of, queries_select}

abbrev leaf : Text → Text → TiXmlElement → TiXmlElement
leaf name text siblings =
    element name (some text) ((codes "id", text) ∷ (codes "id", codes "again") ∷ []) null siblings

-- Two groups, of which only the second has a user of its own.
abbrev document : TiXmlElement
document =
    element (codes "root") none []
      (element (codes "group") none []
        (leaf (codes "user") (codes "1")
          (leaf (codes "host") (codes "2") (leaf (codes "user") (codes "3") null)))
        (element (codes "group") none [] (leaf (codes "admin") (codes "4") null) null))
      null

abbrev nobody : XmlNode
nobody = record { text = []; attrs = [] }

queries_select_example :
    (get_nodes document (codes "root/group/user") []
      ≡ expected (split_tokens (codes "root/group/user") delimiters [] (negsuc 0)) document)
    × (get_node document (codes "root/group/user") nobody ≡ (
      (expected (split_tokens (codes "root/group/user") delimiters [] (negsuc 0)) document).0,
      first_of nobody
          (expected (split_tokens (codes "root/group/user") delimiters [] (negsuc 0)) document).1,
    ))
queries_select_example = queries_select document b'r' (codes "oot/group/user") [] nobody

users_found : get_nodes document (codes "/root\\group/user") [] ≡ (
  pos 0,
  record { text = codes "1"; attrs = (codes "id", codes "1") ∷ [] }
      ∷ record { text = codes "3"; attrs = (codes "id", codes "3") ∷ [] }
      ∷ [],
)
unfolding get_nodes split_tokens text_eq insert find place
users_found = refl

-- A child of the second group is not found.
admin_missed : get_nodes document (codes "root/group/admin") [] ≡ (negsuc 3, [])
unfolding get_nodes split_tokens text_eq
admin_missed = refl

to_string_runs :
    to_string (record { text = codes "t"; attrs = (codes "a", codes "x") ∷ [] })
    ≡ codes "Text = t" ++ 10 ∷ codes "Attr = a:x " ++ 10 ∷ []
unfolding to_string
to_string_runs = refl
