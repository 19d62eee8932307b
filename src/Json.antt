-- ===== src/Json.antt =====
-- Values of JSON, and what encoding/json does when it decodes one into the fields of a struct: the
-- standard library's part of the daemon's handlers and of the configuration. A text that was parsed
-- is a `Json`; a text that is no JSON is the error of the parser.
pub mod Decode
pub mod Number
use ios_pilot.Base.{
  ℕ, ◌+◌, String, Bool, true, false, ◌&&◌, ◌||◌, Option, none, some, List, [], ◌∷◌, map, leb,
  nat_eq, ltb, if◌then◌else◌,
}
use ios_pilot.Base.Int.{ℤ, pos, negsuc}
use ios_pilot.Base.Text.{codes, codes_eq, concat, itoa}
use ios_pilot.Errors.{GoError, errorf}

-- `num` is an integer literal, `frac` the text of any other number.
mutual
  pub data Json : Type 0 where
    null : Json
    bool : Bool → Json
    num : ℤ → Json
    frac : String → Json
    str : String → Json
    arr : Items → Json
    obj : Fields → Json

  pub data Items : Type 0 where
    nil : Items
    cons : Json → Items → Items

  pub data Fields : Type 0 where
    end : Fields
    field : String → Json → Fields → Fields

-- the folding of a letter of a key: its lower case, for what folds to an ASCII letter
abbrev pub fold_key : ℕ → ℕ
fold_key c =
    if leb b'A' c && leb c b'Z'
    then c + 32
    else if nat_eq c 8490
    then b'k'
    else if nat_eq c 383
    then b's'
    else c

-- does the key name the field; the names of the fields are in lower case
abbrev pub names : String → String → Bool
names key name = codes_eq (map fold_key (codes key)) (codes name)

abbrev kind_of : Json → String
kind_of null = "null"
kind_of (bool b) = "bool"
kind_of (num z) = "number"
kind_of (frac s) = "number"
kind_of (str s) = "string"
kind_of (arr xs) = "array"
kind_of (obj fs) = "object"

-- UnmarshalTypeError, of a value of this kind
type_error : String → String → String → GoError
type_error kind name ty = errorf (
    concat
      ("json: cannot unmarshal " ∷ kind ∷ " into Go struct field ." ∷ name ∷ " of type " ∷ ty ∷ []))

-- A value for a field of a type, over what the field held: null leaves it, a value of another type
-- leaves it and is an error.
unfoldable pub into_string : String → Json → String → String × Option GoError
unfolding type_error
into_string name null old = (old, none)
into_string name (str s) old = (s, none)
into_string name j old = (old, some (type_error (kind_of j) name "string"))

unfoldable pub into_bool : String → Json → Bool → Bool × Option GoError
unfolding type_error
into_bool name null old = (old, none)
into_bool name (bool b) old = (b, none)
into_bool name j old = (old, some (type_error (kind_of j) name "bool"))

-- the range of `int` on the machines that the program is built for
abbrev pub fits_int : ℤ → Bool
fits_int (pos n) = ltb n 9223372036854775808
fits_int (negsuc n) = ltb n 9223372036854775808

unfoldable pub into_int : String → Json → ℤ → ℤ × Option GoError
unfolding type_error
into_int name null old = (old, none)
into_int name (num z) old =
    if fits_int z
    then (z, none)
    else (old, some (type_error (concat ("number " ∷ itoa z ∷ [])) name "int"))
into_int name (frac s) old = (old, some (type_error (concat ("number " ∷ s ∷ [])) name "int"))
into_int name j old = (old, some (type_error (kind_of j) name "int"))

-- the error that was met first
abbrev pub first_error : Option GoError → Option GoError → Option GoError
first_error none e = e
first_error (some e) e' = some e

-- the fields of an object, one after the other, into a struct
unfoldable pub into_fields :
    {P : Type 0} → (String → Json → P → P × Option GoError) → Fields → P → P × Option GoError
into_fields assign end p = (p, none)
into_fields assign (field key v fs) p =
    let (p', e) = assign key v p in
    let (p'', e') = into_fields assign fs p' in (p'', first_error e e')

-- a value into a struct: null leaves it, and what is no object is an error, whose text does not spell
-- out the type of the struct
unfoldable pub into_struct :
    {P : Type 0} → (String → Json → P → P × Option GoError) → Json → P → P × Option GoError
unfolding into_fields
into_struct assign null p = (p, none)
into_struct assign (obj fs) p = into_fields assign fs p
into_struct assign j p = (p, some (errorf "json: cannot unmarshal into Go value of type struct"))

-- json.Unmarshal of a `json.RawMessage`; the empty one is no JSON
unfoldable pub unmarshal :
    {P : Type 0} → (String → Json → P → P × Option GoError) → Option Json → P → P × Option GoError
unfolding into_struct
unmarshal assign none p = (p, some (errorf "unexpected end of JSON input"))
unmarshal assign (some j) p = into_struct assign j p
