-- ===== src/Daemon/Params.antt =====
-- The parameters of the methods (the local structs of internal/daemon/state.go), and how a value of
-- JSON is decoded into them.
use ios_pilot.Base.{String, Bool, false, Option, none, some, if◌then◌else◌}
use ios_pilot.Base.Int.{ℤ, pos}
use ios_pilot.Errors.{GoError}
use ios_pilot.Json.{Json, names, into_string, into_bool, into_int, unmarshal}

pub record LookParams : Type 0 where
  pub ui : Bool
  pub annotate : Bool

pub record ActParams : Type 0 where
  pub action : String
  pub x : ℤ
  pub y : ℤ
  pub x1 : ℤ
  pub y1 : ℤ
  pub x2 : ℤ
  pub y2 : ℤ
  pub text : String
  pub key : String

pub record LogParams : Type 0 where
  pub n : ℤ
  pub filter : String
  pub level : String
  pub search : String

-- a struct with one field of type string, under this name
unfoldable pub assign_only : String → String → Json → String → String × Option GoError
assign_only name key v old = if names key name then into_string name v old else (old, none)

unfoldable pub assign_look : String → Json → LookParams → LookParams × Option GoError
assign_look key v p =
    if names key "ui"
    then (let (b, e) = into_bool "ui" v p.ui in (record p { ui = b }, e))
    else if names key "annotate"
    then (let (b, e) = into_bool "annotate" v p.annotate in (record p { annotate = b }, e))
    else (p, none)

unfoldable pub assign_act : String → Json → ActParams → ActParams × Option GoError
assign_act key v p =
    if names key "action"
    then (let (t, e) = into_string "action" v p.action in (record p { action = t }, e))
    else if names key "x"
    then (let (n, e) = into_int "x" v p.x in (record p { x = n }, e))
    else if names key "y"
    then (let (n, e) = into_int "y" v p.y in (record p { y = n }, e))
    else if names key "x1"
    then (let (n, e) = into_int "x1" v p.x1 in (record p { x1 = n }, e))
    else if names key "y1"
    then (let (n, e) = into_int "y1" v p.y1 in (record p { y1 = n }, e))
    else if names key "x2"
    then (let (n, e) = into_int "x2" v p.x2 in (record p { x2 = n }, e))
    else if names key "y2"
    then (let (n, e) = into_int "y2" v p.y2 in (record p { y2 = n }, e))
    else if names key "text"
    then (let (t, e) = into_string "text" v p.text in (record p { text = t }, e))
    else if names key "key"
    then (let (t, e) = into_string "key" v p.key in (record p { key = t }, e))
    else (p, none)

unfoldable pub assign_log : String → Json → LogParams → LogParams × Option GoError
assign_log key v p =
    if names key "n"
    then (let (n, e) = into_int "n" v p.n in (record p { n = n }, e))
    else if names key "filter"
    then (let (t, e) = into_string "filter" v p.filter in (record p { filter = t }, e))
    else if names key "level"
    then (let (t, e) = into_string "level" v p.level in (record p { level = t }, e))
    else if names key "search"
    then (let (t, e) = into_string "search" v p.search in (record p { search = t }, e))
    else (p, none)

abbrev pub no_look : LookParams
no_look = record { ui = false; annotate = false }

abbrev pub no_act : ActParams
no_act = record {
  action = "";
  x = pos 0;
  y = pos 0;
  x1 = pos 0;
  y1 = pos 0;
  x2 = pos 0;
  y2 = pos 0;
  text = "";
  key = "";
}

abbrev pub no_log : LogParams
no_log = record { n = pos 0; filter = ""; level = ""; search = "" }

-- `if len(params) > 0 { json.Unmarshal(params, &p) }`: an error is dropped, and what was decoded stays
unfoldable pub lenient :
    {P : Type 0} → (String → Json → P → P × Option GoError) → Option Json → P → P
lenient assign none p = p
lenient assign (some j) p = (unmarshal assign (some j) p).0
