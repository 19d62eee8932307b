-- ===== src/Cli/Commands.antt =====
-- The commands that make one request (internal/cli/act.go, app.go, check.go, device.go, look.go and
-- wda.go). The arguments are parsed into a plan after the connection is made, as the code does.
use ios_pilot.Base.{
  String, Bool, true, false, ◌||◌, Option, none, some, List, [], ◌∷◌, ◌==◌, if◌then◌else◌,
}
use ios_pilot.Base.Int.{ℤ}
use ios_pilot.Base.Text.{concat}
use ios_pilot.Base.Decimal.{atoi}
use ios_pilot.Json.{Json, bool, num, str, obj, Fields, end, field}
use ios_pilot.Cli.{
  Output, usage, guide, complaint, Shell, Command, print_all, leave, request, with_daemon,
}

-- a request, or what is printed before the command leaves with the code 1
pub data Plan : Type 0 where
  ask : String → Option Json → Plan
  refuse : List Output → Plan

abbrev pub is_help : String → Bool
is_help a = a == "--help" || a == "-help"

-- strings.Join(args, " ")
abbrev pub join_words : List String → String
join_words [] = ""
join_words (s ∷ []) = s
join_words (s ∷ t ∷ r) = concat (s ∷ " " ∷ join_words (t ∷ r) ∷ [])

abbrev pub refuse_line : String → Plan
refuse_line line = refuse (complaint line ∷ [])

-- an object with one text
abbrev pub text_param : String → String → Option Json
text_param key text = some (obj (field key (str text) end))

-- The encoder writes the keys of a map in order. Any error of Atoi refuses the action.
abbrev pub tap_plan : Option ℤ → Option ℤ → Plan
tap_plan (some x) (some y) =
    ask "act" (some (obj (field "action" (str "tap") (field "x" (num x) (field "y" (num y) end)))))
tap_plan _ _ = refuse_line "error: x and y must be integers"

abbrev pub swipe_plan : Option ℤ → Option ℤ → Option ℤ → Option ℤ → Plan
swipe_plan (some x1) (some y1) (some x2) (some y2) = ask "act" (
    some (
      obj (
        field "action" (str "swipe") (
          field "x1" (num x1)
            (field "x2" (num x2) (field "y1" (num y1) (field "y2" (num y2) end)))))))
swipe_plan _ _ _ _ = refuse_line "error: all coordinates must be integers"

abbrev pub act_tap : List String → Plan
act_tap (x ∷ y ∷ _) = tap_plan (atoi x) (atoi y)
act_tap _ = refuse_line "usage: ios-pilot act tap <x> <y>"

abbrev pub act_swipe : List String → Plan
act_swipe (x1 ∷ y1 ∷ x2 ∷ y2 ∷ _) = swipe_plan (atoi x1) (atoi y1) (atoi x2) (atoi y2)
act_swipe _ = refuse_line "usage: ios-pilot act swipe <x1> <y1> <x2> <y2>"

abbrev pub act_input : List String → Plan
act_input [] = refuse_line "usage: ios-pilot act input \"<text>\""
act_input (a ∷ args) =
    ask "act"
      (some (obj (field "action" (str "input") (field "text" (str (join_words (a ∷ args))) end))))

abbrev pub act_press : List String → Plan
act_press [] = refuse_line "usage: ios-pilot act press <key>"
act_press (key ∷ _) =
    ask "act" (some (obj (field "action" (str "press") (field "key" (str key) end))))

-- the first argument as the one text of the request
abbrev pub one_text : String → String → String → List String → Plan
one_text method key line [] = refuse_line line
one_text method key line (a ∷ _) = ask method (text_param key a)

-- `%q` and the usage, of a word that is no subcommand
abbrev pub unknown : (String → String) → String → String → String → Plan
unknown quote command kind a = refuse (
    complaint (concat ("ios-pilot " ∷ command ∷ ": unknown " ∷ kind ∷ " " ∷ quote a ∷ []))
    ∷ usage command
    ∷ [])

unfoldable pub act_plan : (String → String) → String → List String → Plan
act_plan quote a args =
    if a == "tap"
    then act_tap args
    else if a == "swipe"
    then act_swipe args
    else if a == "input"
    then act_input args
    else if a == "press"
    then act_press args
    else unknown quote "act" "action" a

unfoldable pub app_plan : (String → String) → String → List String → Plan
app_plan quote a args =
    if a == "list"
    then ask "app.list" none
    else if a == "install"
    then one_text "app.install" "path" "usage: ios-pilot app install <path>" args
    else if a == "launch"
    then one_text "app.launch" "bundle_id" "usage: ios-pilot app launch <bundle_id>" args
    else if a == "kill"
    then one_text "app.kill" "bundle_id" "usage: ios-pilot app kill <bundle_id>" args
    else if a == "uninstall"
    then one_text "app.uninstall" "bundle_id" "usage: ios-pilot app uninstall <bundle_id>" args
    else if a == "foreground"
    then ask "app.foreground" none
    else unknown quote "app" "subcommand" a

-- the loop of `parseCheckElementText` for `--text`
unfoldable pub after_text_flag : List String → Option String
after_text_flag [] = none
after_text_flag (a ∷ []) = none
after_text_flag (a ∷ b ∷ args) =
    let rest = after_text_flag (b ∷ args) in
    if a == "--text" then some (join_words (b ∷ args)) else rest

unfoldable pub parse_check_element_text : List String → String
unfolding after_text_flag
parse_check_element_text args = elim (after_text_flag args) [
  | some text ↦ text
  | none ↦ join_words args
]

abbrev pub element_plan : String → Plan
element_plan text =
    if text == ""
    then refuse_line "usage: ios-pilot check element --text \"<text>\""
    else ask "check.element" (text_param "text" text)

unfoldable pub check_plan : (String → String) → String → List String → Plan
unfolding parse_check_element_text
check_plan quote a args =
    if a == "screen"
    then ask "check.screen" none
    else if a == "element"
    then element_plan (parse_check_element_text args)
    else if a == "app-running"
    then one_text "check.app_running" "bundle_id" "usage: ios-pilot check app-running <bundle_id>"
        args
    else if a == "no-crash"
    then one_text "check.no_crash" "bundle_id" "usage: ios-pilot check no-crash <bundle_id>" args
    else unknown quote "check" "subcommand" a

-- the argument of `device connect`, "" where there is none
abbrev pub udid_of : List String → String
udid_of [] = ""
udid_of (udid ∷ _) = udid

unfoldable pub device_plan : (String → String) → String → List String → Plan
device_plan quote a args =
    if a == "list"
    then ask "device.list" none
    else if a == "connect"
    then ask "device.connect" (text_param "udid" (udid_of args))
    else if a == "status"
    then ask "device.status" none
    else if a == "disconnect"
    then ask "device.disconnect" none
    else unknown quote "device" "subcommand" a

abbrev pub flag_field : String → Bool → Fields → Fields
flag_field key true fs = field key (bool true) fs
flag_field key false fs = fs

-- the loop over the options of `look`: whether `--ui` and `--annotate` were among them
unfoldable pub look_plan : (String → String) → List String → Bool → Bool → Plan
look_plan quote [] ui annotate =
    ask "look" (some (obj (flag_field "annotate" annotate (flag_field "ui" ui end))))
look_plan quote (a ∷ args) ui annotate =
    let with_ui = look_plan quote args true annotate in
    let with_annotate = look_plan quote args ui true in
    if a == "--ui"
    then with_ui
    else if a == "--annotate"
    then with_annotate
    else unknown quote "look" "option" a

abbrev pub any_help : List String → Bool
any_help [] = false
any_help (a ∷ args) = is_help a || any_help args

module _ {W : Type 0} (sh : Shell W) where
  unfoldable pub carry_out : Plan → Command W
  unfolding request print_all
  carry_out (ask method params) t = request sh method params t
  carry_out (refuse os) t = (1, print_all os t)

  -- the shape of `cmdAct`, `cmdApp`, `cmdCheck` and `cmdDevice`
  unfoldable pub subcommand : String → (String → List String → Plan) → List String → Command W
  unfolding with_daemon carry_out
  subcommand command plan [] t = leave 0 (usage command) t
  subcommand command plan (a ∷ args) t =
      if is_help a then leave 0 (usage command) t else with_daemon sh (carry_out (plan a args)) t

  unfoldable pub cmd_act : List String → Command W
  unfolding subcommand act_plan
  cmd_act args = subcommand "act" (act_plan sh.os.quote) args

  unfoldable pub cmd_app : List String → Command W
  unfolding subcommand app_plan
  cmd_app args = subcommand "app" (app_plan sh.os.quote) args

  unfoldable pub cmd_check : List String → Command W
  unfolding subcommand check_plan
  cmd_check args = subcommand "check" (check_plan sh.os.quote) args

  unfoldable pub cmd_device : List String → Command W
  unfolding subcommand device_plan
  cmd_device args = subcommand "device" (device_plan sh.os.quote) args

  unfoldable pub cmd_look : List String → Command W
  unfolding with_daemon carry_out look_plan
  cmd_look args t =
      if any_help args
      then leave 0 (usage "look") t
      else with_daemon sh (carry_out (look_plan sh.os.quote args false false)) t

  abbrev pub wda_known : String → List String → Command W
  wda_known a args t =
      if a == "setup"
      then leave 0 guide t
      else if a == "status"
      then with_daemon sh (carry_out (ask "wda.status" none)) t
      else if a == "restart"
      then with_daemon sh (carry_out (ask "wda.restart" none)) t
      else carry_out (unknown sh.os.quote "wda" "subcommand" a) t

  unfoldable pub cmd_wda : List String → Command W
  unfolding with_daemon carry_out
  cmd_wda [] t = leave 0 (usage "wda") t
  cmd_wda (a ∷ args) t = if is_help a then leave 0 (usage "wda") t else wda_known a args t
