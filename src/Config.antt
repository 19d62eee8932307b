-- ===== src/Config.antt =====
-- The configuration (internal/config/config.go). The file is what reading and parsing it gave, the
-- home directory an argument.
pub mod Merge
mod Tests
use ios_pilot.Base.{
  ℕ, String, Bool, true, false, ◌||◌, Option, none, some, List, [], ◌∷◌, ◌==◌, if◌then◌else◌,
}
use ios_pilot.Base.Int.{ℤ, pos}
use ios_pilot.Base.Text.{concat}
use ios_pilot.Errors.{GoError, errorf, Result, ok, err}
use ios_pilot.Json.{
  Json, null, bool, num, frac, str, arr, obj, Items, nil, cons, Fields, end, field, names,
  into_string, into_bool, into_int, into_struct, first_error,
}

pub record WdaConfig : Type 0 where
  pub auto_start : Bool
  pub bundle_id : String
  pub health_interval : String
  pub max_restart : ℤ

pub record ScreenshotConfig : Type 0 where
  pub dir : String
  pub retention_hours : ℤ
  pub max_count : ℤ

pub record AnnotateConfig : Type 0 where
  pub box_color : String
  pub label_size : ℤ
  pub interactive_types : List String

pub record Config : Type 0 where
  pub idle_timeout : String
  pub log_buffer_size : ℤ
  pub wda : WdaConfig
  pub screenshot : ScreenshotConfig
  pub annotate : AnnotateConfig

-- filepath.Join(home, ".config", "ios-pilot", "screenshots"), for a home with no `.`, `..` or slash
-- at its end
abbrev pub screenshot_dir : String → String
screenshot_dir home = concat (home ∷ "/.config/ios-pilot/screenshots" ∷ [])

unfoldable pub default : String → Config
default home = record {
  idle_timeout = "30m";
  log_buffer_size = pos 2000;
  wda = record {
    auto_start = true;
    bundle_id = "com.facebook.WebDriverAgentRunner.xctrunner";
    health_interval = "30s";
    max_restart = pos 3;
  };
  screenshot = record { dir = screenshot_dir home; retention_hours = pos 24; max_count = pos 200 };
  annotate = record {
    box_color = "#FF0000";
    label_size = pos 14;
    interactive_types = "button" ∷ "textfield" ∷ "switch" ∷ "link" ∷ "cell" ∷ "icon" ∷ "text" ∷ [];
  };
}

-- An array goes into the slice from the start of its old storage: a null element shows what lay
-- there, and an element of another type too, with an error.
unfoldable pub into_strings : Items → List String → List String × Option GoError
into_strings nil old = ([], none)
into_strings (cons j js) [] =
    let (s, e) = into_string "interactive_types" j "" in
    let (ss, e') = into_strings js [] in (s ∷ ss, first_error e e')
into_strings (cons j js) (o ∷ old) =
    let (s, e) = into_string "interactive_types" j o in
    let (ss, e') = into_strings js old in (s ∷ ss, first_error e e')

unfoldable pub into_string_slice : Json → List String → List String × Option GoError
unfolding into_strings
into_string_slice null old = ([], none)
into_string_slice (arr js) old = into_strings js old
into_string_slice j old = (old, some (errorf "json: cannot unmarshal into Go struct field"))

unfoldable pub assign_wda : String → Json → WdaConfig → WdaConfig × Option GoError
assign_wda key v c =
    if names key "auto_start"
    then (let (b, e) = into_bool "auto_start" v c.auto_start in (record c { auto_start = b }, e))
    else if names key "bundle_id"
    then (let (s, e) = into_string "bundle_id" v c.bundle_id in (record c { bundle_id = s }, e))
    else if names key "health_interval"
    then (let (s, e) = into_string "health_interval" v c.health_interval in
        (record c { health_interval = s }, e))
    else if names key "max_restart"
    then (let (n, e) = into_int "max_restart" v c.max_restart in (record c { max_restart = n }, e))
    else (c, none)

unfoldable pub assign_screenshot :
    String → Json → ScreenshotConfig → ScreenshotConfig × Option GoError
assign_screenshot key v c =
    if names key "dir"
    then (let (s, e) = into_string "dir" v c.dir in (record c { dir = s }, e))
    else if names key "retention_hours"
    then (let (n, e) = into_int "retention_hours" v c.retention_hours in
        (record c { retention_hours = n }, e))
    else if names key "max_count"
    then (let (n, e) = into_int "max_count" v c.max_count in (record c { max_count = n }, e))
    else (c, none)

unfoldable pub assign_annotate : String → Json → AnnotateConfig → AnnotateConfig × Option GoError
assign_annotate key v c =
    if names key "box_color"
    then (let (s, e) = into_string "box_color" v c.box_color in (record c { box_color = s }, e))
    else if names key "label_size"
    then (let (n, e) = into_int "label_size" v c.label_size in (record c { label_size = n }, e))
    else if names key "interactive_types"
    then (let (ss, e) = into_string_slice v c.interactive_types in
        (record c { interactive_types = ss }, e))
    else (c, none)

-- the entry of a map of Go, whose keys are exact and whose last entry counts
unfoldable pub entry : String → Fields → Option Json
entry key end = none
entry key (field k v fs) = elim (entry key fs) [
  | some j ↦ some j
  | none ↦ if k == key then some v else none
]

-- `if v, ok := raw[key]; ok { json.Unmarshal(v, &part) }`, the error dropped
abbrev pub merge : {P : Type 0} → String → Fields → (Json → P → P) → P → P
merge key raw into old = elim (entry key raw) [ none ↦ old | some v ↦ into v old ]

-- the five sections over what the configuration has
unfoldable pub merge_all : Fields → Config → Config
merge_all raw c = record {
  idle_timeout =
      merge "idle_timeout" raw (λ v o. (into_string "idle_timeout" v o).0) c.idle_timeout;
  log_buffer_size =
      merge "log_buffer_size" raw (λ v o. (into_int "log_buffer_size" v o).0) c.log_buffer_size;
  wda = merge "wda" raw (λ v o. (into_struct assign_wda v o).0) c.wda;
  screenshot = merge "screenshot" raw (λ v o. (into_struct assign_screenshot v o).0) c.screenshot;
  annotate = merge "annotate" raw (λ v o. (into_struct assign_annotate v o).0) c.annotate;
}

-- What `os.ReadFile` says, and the parsing of what was read.
pub data File : Type 0 where
  missing : File
  unreadable : GoError → File
  text : Result Json → File

-- json.Unmarshal into the raw map, and the merges
unfoldable pub merge_json : Json → Config → Config × Option GoError
unfolding merge_all
merge_json null c = (c, none)
merge_json (obj raw) c = (merge_all raw c, none)
merge_json j c =
    (c, some (errorf "json: cannot unmarshal into Go value of type map[string]json.RawMessage"))

unfoldable pub load_from : String → File → Config × Option GoError
unfolding default merge_json
load_from home missing = (default home, none)
load_from home (unreadable e) = (default home, some e)
load_from home (text (err e)) = (default home, some e)
load_from home (text (ok j)) = merge_json j (default home)

-- `Load`: an unknown home directory is an error, with the defaults for the home ""; the file is the one
-- of the path of the home directory, whatever IOS_PILOT_CONFIG_DIR says
unfoldable pub load : Result String → (String → File) → Config × Option GoError
unfolding load_from
load (err e) file = (default "", some e)
load (ok home) file = load_from home (file (concat (home ∷ "/.config/ios-pilot/config.json" ∷ [])))
