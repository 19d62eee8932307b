-- ===== src/Wda/Elements.antt =====
-- The elements of a page source (internal/driver/wda/elements.go). The XML is a tree that was parsed;
-- `lower` is strings.ToLower. Numbers of type int do not overflow in the model.
use Prim.Native.Char.{code}
use ios_pilot.Base.{
  ℕ, ◌+◌, ◌-◌, ◌*◌, String, Bool, false, not, ◌&&◌, ◌||◌, Option, none, some, List, [], ◌∷◌, ◌++◌,
  ◌==◌, leb, nat_eq, if◌then◌else◌,
}
use ios_pilot.Base.Int.{ℤ, pos, sub_ℕ, ◌+ℤ◌}
use ios_pilot.Base.Text.{codes}
use ios_pilot.Driver.{WdaElement}
use ios_pilot.Screen.Capture.{half}

-- the local name of a node, its attributes by their local names, and its children
mutual
  pub data XmlNode : Type 0 where
    node : String → List (String × String) → XmlNodes → XmlNode

  pub data XmlNodes : Type 0 where
    leaf : XmlNodes
    child : XmlNode → XmlNodes → XmlNodes

-- the first attribute of the name, or ""
unfoldable pub attr : String → List (String × String) → String
attr name [] = ""
attr name ((key, value) ∷ attrs) = if key == name then value else attr name attrs

-- the loop of `atoi`, which stops at what is no digit
unfoldable pub read_digits : ℕ → List ℕ → ℕ
read_digits n [] = n
read_digits n (c ∷ cs) =
    let rest = read_digits (n * 10 + (c - b'0')) cs in if leb b'0' c && leb c b'9' then rest else n

unfoldable pub atoi_codes : List ℕ → ℤ
unfolding read_digits
atoi_codes [] = pos 0
atoi_codes (c ∷ cs) =
    if nat_eq c b'-' then sub_ℕ 0 (read_digits 0 cs) else pos (read_digits 0 (c ∷ cs))

abbrev pub atoi : String → ℤ
atoi s = atoi_codes (codes s)

-- what follows the prefix, if it is one
unfoldable pub after_prefix : String → String → Option String
after_prefix String.[] s = some s
after_prefix (String.◌∷◌ c p) String.[] = none
after_prefix (String.◌∷◌ c p) (String.◌∷◌ d s) =
    let rest = after_prefix p s in if nat_eq (code c) (code d) then rest else none

module _ (lower : String → String) where
  unfoldable pub map_type_name : String → String
  unfolding after_prefix
  map_type_name name =
      if name == "XCUIElementTypeButton"
      then "button"
      else if name == "XCUIElementTypeTextField" || name == "XCUIElementTypeSecureTextField"
      then "textfield"
      else if name == "XCUIElementTypeSwitch"
      then "switch"
      else if name == "XCUIElementTypeLink"
      then "link"
      else if name == "XCUIElementTypeCell"
      then "cell"
      else if name == "XCUIElementTypeStaticText"
      then "text"
      else elim (after_prefix "XCUIElementType" name) [ some rest ↦ lower rest | none ↦ lower name ]

  -- "name", or else "label", or else "value"
  unfoldable pub label_of : List (String × String) → String
  unfolding attr
  label_of attrs =
      if attr "name" attrs == ""
      then if attr "label" attrs == "" then attr "value" attrs else attr "label" attrs
      else attr "name" attrs

  -- `nodeToElement`, whose Boolean is always true
  unfoldable pub node_to_element : String → List (String × String) → WdaElement
  unfolding map_type_name label_of
  node_to_element name attrs =
      let x = atoi (attr "x" attrs) in
      let y = atoi (attr "y" attrs) in
      let w = atoi (attr "width" attrs) in
      let h = atoi (attr "height" attrs) in
      record {
        kind = map_type_name name;
        label = label_of attrs;
        frame = (x, y, w, h);
        center = (x +ℤ half w, y +ℤ half h);
      }

  abbrev pub is_shown : String → Bool
  is_shown name = not (name == "") && not (name == "AppiumAUT")

  -- what `collectElements` appends for a node and for its children
  unfoldable mutual
    unfolding node_to_element

    pub collect_elements : XmlNode → List WdaElement
    collect_elements (node name attrs children) =
        let rest = collect_children children in
        if is_shown name then node_to_element name attrs ∷ rest else rest

    pub collect_children : XmlNodes → List WdaElement
    collect_children leaf = []
    collect_children (child n ns) = collect_elements n ++ collect_children ns

-- is the type one of these
unfoldable pub is_allowed : List String → String → Bool
is_allowed [] kind = false
is_allowed (t ∷ ts) kind = t == kind || is_allowed ts kind

-- the loop of `FilterInteractive`
unfoldable pub keep_allowed : List String → List WdaElement → List WdaElement
unfolding is_allowed
keep_allowed types [] = []
keep_allowed types (el ∷ els) =
    let rest = keep_allowed types els in if is_allowed types el.kind then el ∷ rest else rest

-- no types stand for all
unfoldable pub filter_interactive : List WdaElement → List String → List WdaElement
unfolding keep_allowed
filter_interactive els [] = els
filter_interactive els (t ∷ ts) = keep_allowed (t ∷ ts) els
