-- ===== src/Cli/Log.antt =====
-- `ios-pilot log` (internal/cli/log.go): the options, the crash reports, and the loop that follows.
use ios_pilot.Base.{
  ℕ, zero, suc, String, Bool, true, false, Option, none, some, List, [], ◌∷◌, ◌==◌, if◌then◌else◌,
}
use ios_pilot.Base.Int.{ℤ, pos}
use ios_pilot.Base.Text.{concat}
use ios_pilot.Base.Decimal.{atoi}
use ios_pilot.Errors.{Result, ok, err}
use ios_pilot.Json.{Json, num, str, obj, Fields, end, field}
use ios_pilot.Client.{Client, ClientResponse, call}
use ios_pilot.Cli.{
  Output, usage, complaint, json, Console, Shell, Command, print, print_all, leave, leave_error,
  new_client, request, with_daemon, ensure_daemon,
}
use ios_pilot.Cli.Commands.{Plan, ask, text_param, any_help, carry_out}

-- `params`, `n` and `follow` of `cmdLog`; an option that was not given is no key of `params`
pub record LogOptions : Type 0 where
  pub filter : Option String
  pub level : Option String
  pub search : Option String
  pub n : ℤ
  pub follow : Bool

abbrev pub no_options : LogOptions
no_options = record { filter = none; level = none; search = none; n = pos 50; follow = false }

pub data Parsed : Type 0 where
  options : LogOptions → Parsed
  refused : List Output → Parsed

pub data OptionKind : Type 0 where
  count_option filter_option level_option search_option follow_option no_option : OptionKind

-- the switch over an argument
unfoldable pub option_kind : String → OptionKind
option_kind a =
    if a == "-n"
    then count_option
    else if a == "--filter"
    then filter_option
    else if a == "--level"
    then level_option
    else if a == "--search"
    then search_option
    else if a == "--follow"
    then follow_option
    else no_option

abbrev pub needs_value : String → Parsed
needs_value a = refused (complaint (concat ("error: " ∷ a ∷ " requires a value" ∷ [])) ∷ [])

abbrev pub unknown_option : (String → String) → String → Parsed
unknown_option quote a =
    refused
      (complaint (concat ("ios-pilot log: unknown option " ∷ quote a ∷ [])) ∷ usage "log" ∷ [])

-- an option that is the last argument
abbrev pub last_option : (String → String) → String → OptionKind → LogOptions → Parsed
last_option quote a follow_option o = options (record o { follow = true })
last_option quote a no_option o = unknown_option quote a
last_option quote a _ o = needs_value a

-- the loop over the arguments; an option that takes a value takes the argument after it
unfoldable pub parse_log : (String → String) → List String → LogOptions → Parsed
unfolding option_kind
parse_log quote [] o = options o
parse_log quote (a ∷ []) o = last_option quote a (option_kind a) o
parse_log quote (a ∷ v ∷ args) o = elim (option_kind a) [
  | count_option ↦ elim (atoi v) [
    | none ↦ refused (complaint "error: -n must be an integer" ∷ [])
    | some n ↦ parse_log quote args (record o { n = n })
  ]
  | filter_option ↦ parse_log quote args (record o { filter = some v })
  | level_option ↦ parse_log quote args (record o { level = some v })
  | search_option ↦ parse_log quote args (record o { search = some v })
  | follow_option ↦ parse_log quote (v ∷ args) (record o { follow = true })
  | no_option ↦ unknown_option quote a
]

abbrev pub text_field : String → Option String → Fields → Fields
text_field key none fs = fs
text_field key (some text) fs = field key (str text) fs

-- the map `params` with the number of entries, its keys in the order of the encoder
abbrev pub log_params : LogOptions → ℤ → Option Json
log_params o n = some (
    obj (
      text_field "filter" o.filter
        (text_field "level" o.level (field "n" (num n) (text_field "search" o.search end)))))

-- `cmdLogCrash` after the connection
abbrev pub crash_plan : List String → Plan
crash_plan [] = ask "log.crash.list" none
crash_plan (id ∷ _) = ask "log.crash.get" (text_param "id" id)

module _ {W : Type 0} (sh : Shell W) where
  -- what a round of the loop does with the response, and then the rounds after it
  unfoldable pub polled :
      Result ClientResponse
      → (Client → Console W → Option (ℕ × Console W))
      → Client
      → Console W
      → Option (ℕ × Console W)
  polled (err e) next c t = some (leave_error e t)
  polled (ok resp) next c t = elim resp.error [
    | some e ↦ some (leave 1 (complaint (concat ("error: " ∷ e.message ∷ []))) t)
    | none ↦
        let t' = print (json resp.result) t in next c (record t' { world = sh.sleep 1000 t'.world })
  ]

  -- The loop of `--follow` for at most this number of rounds; `none` means that it still runs.
  unfoldable pub poll : ℕ → Option Json → Client → Console W → Option (ℕ × Console W)
  unfolding polled
  poll zero params c t = none
  poll (suc rounds) params c t =
      let (r, c', w) = call sh.conn "log" (ok params) c t.world in
      polled r (poll rounds params) c' (record t { world = w })

  -- after the options are parsed; the map is the same in every round
  unfoldable pub run_log : ℕ → Parsed → Console W → Option (ℕ × Console W)
  unfolding poll request print_all
  run_log rounds (refused os) t = some (1, print_all os t)
  run_log rounds (options o) t =
      if o.follow
      then poll rounds (log_params o (pos 10)) new_client t
      else some (request sh "log" (log_params o o.n) t)

  -- the connection is closed where the command ends
  abbrev pub hung_up : Option (ℕ × Console W) → Option (ℕ × Console W)
  hung_up none = none
  hung_up (some (code, t)) = some (code, record t { world = sh.hang_up t.world })

  unfoldable pub log_connected :
      ℕ → List String → Result (Unit {0}) → Console W → Option (ℕ × Console W)
  unfolding run_log parse_log
  log_connected rounds args (err e) t = some (leave_error e t)
  log_connected rounds args (ok _) t =
      hung_up (run_log rounds (parse_log sh.os.quote args no_options) t)

  unfoldable pub cmd_log_crash : List String → Command W
  unfolding with_daemon carry_out
  cmd_log_crash args t = with_daemon sh (carry_out sh (crash_plan args)) t

  -- the arguments after `crash`, where it is the first
  abbrev pub crash_args : List String → Option (List String)
  crash_args [] = none
  crash_args (a ∷ args) = if a == "crash" then some args else none

  abbrev pub log_or_crash :
      ℕ → List String → Option (List String) → Console W → Option (ℕ × Console W)
  log_or_crash rounds args (some rest) t = some (cmd_log_crash rest t)
  log_or_crash rounds args none t =
      let (r, w) = ensure_daemon sh t.world in log_connected rounds args r (record t { world = w })

  unfoldable pub cmd_log : ℕ → List String → Console W → Option (ℕ × Console W)
  unfolding ensure_daemon cmd_log_crash log_connected
  cmd_log rounds args t =
      if any_help args
      then some (leave 0 (usage "log") t)
      else log_or_crash rounds args (crash_args args) t
