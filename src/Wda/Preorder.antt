-- ===== src/Wda/Preorder.antt =====
-- Which elements of a page source are reported, and what a number in it is read as
-- (internal/driver/wda/elements.go).
use ios_pilot.Base.{
  String, ◌≡◌, refl, sym, ap, ◌∙◌, Bool, true, false, not, ◌||◌, ◌==◌, Option, some, none, List, [],
  ◌∷◌, ◌++◌, arith, Bool-cases, inl, inr, eq_iff, if◌then◌else◌,
}
use ios_pilot.Base.Int.{◌+ℤ◌}
use ios_pilot.Screen.Capture.{half}
use ios_pilot.Driver.{WdaElement}
use ios_pilot.Wda.Elements.{
  XmlNode, node, XmlNodes, leaf, child, map_type_name, node_to_element, label_of, attr, atoi,
  after_prefix, is_shown, collect_elements, collect_children, is_allowed, keep_allowed,
  filter_interactive,
}

-- The nodes of a tree with their attributes, each before its children, in the order of the text.
abbrev mutual
  pub preorder : XmlNode → List (String × List (String × String))
  preorder (node name attrs children) = (name, attrs) ∷ preorder_children children

  pub preorder_children : XmlNodes → List (String × List (String × String))
  preorder_children leaf = []
  preorder_children (child n ns) = preorder n ++ preorder_children ns

-- The names that have a type of their own. Any other name stands for itself in lower case, without
-- the prefix "XCUIElementType".
abbrev short_names : List (String × String)
short_names =
    ("XCUIElementTypeButton", "button")
    ∷ ("XCUIElementTypeTextField", "textfield")
    ∷ ("XCUIElementTypeSecureTextField", "textfield")
    ∷ ("XCUIElementTypeSwitch", "switch")
    ∷ ("XCUIElementTypeLink", "link")
    ∷ ("XCUIElementTypeCell", "cell")
    ∷ ("XCUIElementTypeStaticText", "text")
    ∷ []

abbrev value_of : String → List (String × String) → Option String
value_of name [] = none
value_of name ((key, value) ∷ rest) = if name == key then some value else value_of name rest

abbrev or_self : Option String → String → String
or_self (some s) name = s
or_self none name = name

-- the first of the texts that is not empty
abbrev first_text : List String → String
first_text [] = ""
first_text (s ∷ rest) = if s == "" then first_text rest else s

abbrev pub is_among : String → List String → Bool
is_among s [] = false
is_among s (t ∷ ts) = t == s || is_among s ts

-- the names that are left out
abbrev pub left_out : List String
left_out = "" ∷ "AppiumAUT" ∷ []

-- an empty list of types accepts every type
abbrev pub accepts : List String → String → Bool
accepts [] kind = true
accepts (t ∷ ts) kind = is_among kind (t ∷ ts)

is_among-is_allowed : (kind : String) (ts : List String) → is_allowed ts kind ≡ is_among kind ts
unfolding is_allowed
is_among-is_allowed kind [] = refl
is_among-is_allowed kind (t ∷ ts) = ap (λ b. t == kind || b) (is_among-is_allowed kind ts)

module _ (lower : String → String) where
  abbrev pub type_of : String → String
  type_of name = elim (value_of name short_names) [
    | some short ↦ short
    | none ↦ lower (or_self (after_prefix "XCUIElementType" name) name)
  ]

  -- The element of a node: its type, the first of its texts, its frame and the middle of that. A number
  -- is read up to what is no digit, and halves are cut towards zero.
  abbrev pub described : String → List (String × String) → WdaElement
  described name attrs =
      let x = atoi (attr "x" attrs) in
      let y = atoi (attr "y" attrs) in
      let w = atoi (attr "width" attrs) in
      let h = atoi (attr "height" attrs) in
      record {
        kind = type_of name;
        label = first_text (attr "name" attrs ∷ attr "label" attrs ∷ attr "value" attrs ∷ []);
        frame = (x, y, w, h);
        center = (x +ℤ half w, y +ℤ half h);
      }

  -- The elements of the nodes that are not left out and have a type that is accepted.
  abbrev pub accepted : List String → List (String × List (String × String)) → List WdaElement
  accepted types [] = []
  accepted types ((name, attrs) ∷ ns) =
      let rest = accepted types ns in
      if is_among name left_out
      then rest
      else if accepts types (type_of name)
      then described name attrs ∷ rest
      else rest

  map_type_name-type_of : (name : String) → map_type_name lower name ≡ type_of name
  unfolding map_type_name
  map_type_name-type_of name = ground arith

  node_to_element-described :
      (name : String) (attrs : List (String × String))
      → node_to_element lower name attrs ≡ described name attrs
  unfolding node_to_element label_of
  node_to_element-described name attrs =
      ground (arith, map_type_name-type_of name, eq_iff (attr "value" attrs) "")

  is_shown-left_out : (name : String) → is_shown lower name ≡ not (is_among name left_out)
  is_shown-left_out name =
      ground
        (arith, eq_iff name "", eq_iff "" name, eq_iff name "AppiumAUT", eq_iff "AppiumAUT" name)

  accepted-append :
      (types : List String) (xs ys : List (String × List (String × String)))
      → accepted types (xs ++ ys) ≡ accepted types xs ++ accepted types ys
  accepted-append types [] ys = refl
  accepted-append types ((name, attrs) ∷ xs) ys = ground (arith, accepted-append types xs ys)

  keep_allowed-append :
      (types : List String) (xs ys : List WdaElement)
      → keep_allowed types (xs ++ ys) ≡ keep_allowed types xs ++ keep_allowed types ys
  unfolding keep_allowed
  keep_allowed-append types [] ys = refl
  keep_allowed-append types (el ∷ xs) ys = ground (arith, keep_allowed-append types xs ys)

  filter_interactive-append :
      (types : List String) (xs ys : List WdaElement)
      → filter_interactive (xs ++ ys) types
        ≡ filter_interactive xs types ++ filter_interactive ys types
  unfolding filter_interactive
  filter_interactive-append [] xs ys = refl
  filter_interactive-append (t ∷ ts) xs ys = keep_allowed-append (t ∷ ts) xs ys

  filter_interactive-cons :
      (types : List String) (el : WdaElement) (els : List WdaElement)
      → filter_interactive (el ∷ els) types ≡ (
          if accepts types el.kind
          then el ∷ filter_interactive els types
          else filter_interactive els types)
  unfolding filter_interactive keep_allowed
  filter_interactive-cons [] el els = refl
  filter_interactive-cons (t ∷ ts) el els =
      ap (λ b. if b then el ∷ keep_allowed (t ∷ ts) els else keep_allowed (t ∷ ts) els)
        (is_among-is_allowed el.kind (t ∷ ts))

  filter_interactive-nil : (types : List String) → filter_interactive [] types ≡ []
  unfolding filter_interactive keep_allowed
  filter_interactive-nil [] = refl
  filter_interactive-nil (t ∷ ts) = refl

  mutual
    unfolding collect_elements

    elements_accepted :
        (types : List String) (n : XmlNode)
        → filter_interactive (collect_elements lower n) types ≡ accepted types (preorder n)
    elements_accepted types (node name attrs children) =
        let el = node_to_element lower name attrs in
        let els = collect_children lower children in
        let below = children_accepted types children in
        let same = node_to_element-described name attrs in
        let first =
          ap (λ x. filter_interactive (x ∷ els) types) same
          ∙ filter_interactive-cons types (described name attrs) els in
        elim (Bool-cases (is_shown lower name)) [
          | inl visible ↦
              let here : is_among name left_out ≡ false =
                ground (arith, is_shown-left_out name, visible) in
              rw visible (first ∙ rw (below, here) refl)
          | inr hidden ↦
              let out : is_among name left_out ≡ true =
                ground (arith, is_shown-left_out name, hidden) in
              rw (hidden, out) below
        ]

    children_accepted :
        (types : List String) (ns : XmlNodes)
        → filter_interactive (collect_children lower ns) types
          ≡ accepted types (preorder_children ns)
    children_accepted types leaf = filter_interactive-nil types
    children_accepted types (child n ns) =
        filter_interactive-append types (collect_elements lower n) (collect_children lower ns)
        ∙ ap (λ x. x ++ filter_interactive (collect_children lower ns) types)
            (elements_accepted types n)
        ∙ ap (λ x. accepted types (preorder n) ++ x) (children_accepted types ns)
        ∙ sym (accepted-append types (preorder n) (preorder_children ns))

  -- `FilterInteractive` of the elements that `ParseSource` collects gives the nodes of the tree in the
  -- order of the text, those without a name and "AppiumAUT" left out, and of the others those whose
  -- type is among the given ones, or all where no type is given. A node becomes an element with its
  -- type, the first of its name, label and value that is not empty, its frame and the middle of that.
  pub filter_interactive-collect_elements :
      (types : List String) (n : XmlNode)
      → filter_interactive (collect_elements lower n) types ≡ accepted types (preorder n)
  filter_interactive-collect_elements types n = elements_accepted types n
