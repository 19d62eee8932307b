-- ===== src/Wda/Payload.antt =====
-- What the client of WebDriverAgent sends and decodes (internal/driver/wda/client.go). The network and
-- the decoders are `Net`; a request is its URL and its body.
use ios_pilot.Base.{
  ℕ, String, Bool, true, false, not, Option, none, some, List, [], ◌∷◌, ◌==◌, if◌then◌else◌,
}
use ios_pilot.Base.Int.{ℤ, pos}
use ios_pilot.Errors.{GoError, errorf, wrapped, Result, ok, err, Call}
use ios_pilot.Json.{
  Json, null, num, str, arr, obj, Items, nil, cons, Fields, end, field, names, into_bool,
  into_string, into_struct, first_error,
}
use ios_pilot.Driver.{WdaElement}
use ios_pilot.Wda.Elements.{XmlNode}

pub record HttpReply : Type 0 where
  pub status : ℕ
  pub body : List ℕ
  pub read_error : Option GoError

-- http.Client, and the decoders: `json_body` is json.NewDecoder of a body, `json_text` and
-- `xml_text` are the parsers of a whole text, `trim` is bytes.TrimSpace, `text` makes a string of
-- bytes and `bytes` bytes of a string, `lower` is strings.ToLower.
pub record Net (W : Type 0) : Type 0 where
  pub get : String → Call W HttpReply
  pub post : String → Json → Call W HttpReply
  pub delete : String → Call W HttpReply
  pub json_body : HttpReply → Result Json
  pub json_text : List ℕ → Result Json
  pub xml_text : List ℕ → Result XmlNode
  pub base64 : String → Result (List ℕ)
  pub trim : List ℕ → List ℕ
  pub text : List ℕ → String
  pub bytes : String → List ℕ
  pub lower : String → String

-- one step of a pointer, with the fields that `buildPointerActions` writes for its type
pub data PointerAction : Type 0 where
  pointer_move : ℤ → ℤ → ℤ → PointerAction
  pointer_down pointer_up : ℤ → PointerAction
  pause : ℤ → PointerAction

abbrev pub step_json : PointerAction → Json
step_json (pointer_move duration x y) = obj (
    field "type" (str "pointerMove")
      (field "duration" (num duration) (field "x" (num x) (field "y" (num y) end))))
step_json (pointer_down button) =
    obj (field "type" (str "pointerDown") (field "button" (num button) end))
step_json (pointer_up button) =
    obj (field "type" (str "pointerUp") (field "button" (num button) end))
step_json (pause duration) = obj (field "type" (str "pause") (field "duration" (num duration) end))

abbrev pub steps_json : List PointerAction → Items
steps_json [] = nil
steps_json (s ∷ ss) = cons (step_json s) (steps_json ss)

unfoldable pub build_pointer_actions : String → List PointerAction → Json
build_pointer_actions id steps = obj (
    field "actions"
      (arr (
        cons
          (obj (
            field "type" (str "pointer") (
              field "id" (str id) (
                field "parameters" (obj (field "pointerType" (str "touch") end))
                  (field "actions" (arr (steps_json steps)) end)))))
          nil))
      end)

-- the field `value` of a response, into a part of the struct
abbrev pub in_value :
    {P : Type 0} → (String → Json → P → P × Option GoError) → String → Json → P → P × Option GoError
in_value inner key v p = if names key "value" then into_struct inner v p else (p, none)

abbrev pub assign_ready : String → Json → Bool → Bool × Option GoError
assign_ready key v p = if names key "ready" then into_bool "ready" v p else (p, none)

-- the identifier in `value`, and the one beside it
pub record SessionIds : Type 0 where
  pub inner : String
  pub outer : String

abbrev pub assign_inner : String → Json → SessionIds → SessionIds × Option GoError
assign_inner key v p =
    if names key "sessionid"
    then (let (s, e) = into_string "sessionId" v p.inner in (record p { inner = s }, e))
    else (p, none)

unfoldable pub assign_session : String → Json → SessionIds → SessionIds × Option GoError
assign_session key v p =
    if names key "value"
    then into_struct assign_inner v p
    else if names key "sessionid"
    then (let (s, e) = into_string "sessionId" v p.outer in (record p { outer = s }, e))
    else (p, none)

pub record WdaError : Type 0 where
  pub message : String
  pub error : String

abbrev pub assign_error : String → Json → WdaError → WdaError × Option GoError
assign_error key v p =
    if names key "message"
    then (let (s, e) = into_string "message" v p.message in (record p { message = s }, e))
    else if names key "error"
    then (let (s, e) = into_string "error" v p.error in (record p { error = s }, e))
    else (p, none)

abbrev pub assign_text : String → Json → String → String × Option GoError
assign_text key v p = if names key "value" then into_string "value" v p else (p, none)

-- `value` as a map from texts to texts: does it have an entry
unfoldable pub entries_error : Fields → Option GoError
entries_error end = none
entries_error (field key v fs) = first_error (into_string key v "").1 (entries_error fs)

abbrev pub has_entry : Fields → Bool → Bool
has_entry end old = old
has_entry (field key v fs) old = true

unfoldable pub into_map : Json → Bool → Bool × Option GoError
unfolding entries_error
into_map null old = (false, none)
into_map (obj fs) old = (has_entry fs old, entries_error fs)
into_map j old = (old, some (errorf "json: cannot unmarshal into a map"))

abbrev pub assign_found : String → Json → Bool → Bool × Option GoError
assign_found key v p = if names key "value" then into_map v p else (p, none)

-- a struct out of a decoded response
unfoldable pub decoded :
    {P : Type 0} → String → (String → Json → P → P × Option GoError) → P → Result Json → Result P
decoded context assign empty (err e) = err (wrapped context e)
decoded context assign empty (ok j) =
    let (p, e) = into_struct assign j empty in
    elim e [ none ↦ ok p | some x ↦ err (wrapped context x) ]

-- the identifier of the session that was made
unfoldable pub session_id : SessionIds → Result String
session_id ids =
    if not (ids.inner == "")
    then ok ids.inner
    else if not (ids.outer == "")
    then ok ids.outer
    else err (errorf "create session: empty session ID in response")

abbrev pub then_result : {A B : Type 0} → Result A → (A → Result B) → Result B
then_result (ok a) next = next a
then_result (err e) next = err e

-- the first element with this label, or an element that has only the label
unfoldable pub with_label : String → List WdaElement → WdaElement
with_label value [] = record {
  kind = "";
  label = value;
  frame = (pos 0, pos 0, pos 0, pos 0);
  center = (pos 0, pos 0);
}
with_label value (el ∷ els) =
    let rest = with_label value els in if el.label == value then el else rest

-- the runes of a text, each as a text
abbrev pub chars : String → Items
chars String.[] = nil
chars (String.◌∷◌ c s) = cons (str (String.◌∷◌ c String.[])) (chars s)
