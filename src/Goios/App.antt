-- ===== src/Goios/App.antt =====
-- The applications (internal/driver/goios/app.go): the application service of iOS 17 and later first,
-- and instruments where it is not there or fails. `base` is filepath.Base.
use ios_pilot.Base.{
  ℕ, String, Bool, false, ◌&&◌, ◌||◌, Option, none, some, List, [], ◌∷◌, ◌==◌, nat_eq,
  if◌then◌else◌,
}
use ios_pilot.Base.Int.{ℤ}
use ios_pilot.Base.Text.{codes, codes_eq, concat, contains, itoa}
use ios_pilot.Errors.{errorf, Result, ok, err, Call, and_then, or_else}
use ios_pilot.Driver.{AppInfo, AppDriver}
use ios_pilot.Goios.{Bundle, AppProcess, InfoProcess, Library, call_in, using}

-- strings.HasSuffix
unfoldable pub has_suffix : List ℕ → List ℕ → Bool
has_suffix [] p = codes_eq [] p
has_suffix (c ∷ s) p = codes_eq (c ∷ s) p || has_suffix s p

abbrev pub onto_first : ℕ → List (List ℕ) → List (List ℕ)
onto_first c [] = (c ∷ []) ∷ []
onto_first c (part ∷ parts) = (c ∷ part) ∷ parts

-- strings.Split(s, "/")
unfoldable pub split_path : List ℕ → List (List ℕ)
split_path [] = [] ∷ []
split_path (c ∷ s) =
    let rest = split_path s in if nat_eq c b'/' then [] ∷ rest else onto_first c rest

-- the loop over the raw applications
unfoldable pub app_infos : List Bundle → List AppInfo
app_infos [] = []
app_infos (b ∷ bs) =
    let rest = app_infos bs in
    if b.identifier == ""
    then rest
    else record { bundle_id = b.identifier; name = b.name; version = b.version } ∷ rest

abbrev pub service_match : String → AppProcess → Bool
unfolding has_suffix
service_match bundle_id p =
    has_suffix (codes p.path) (codes (concat ("/" ∷ bundle_id ∷ [])))
    || contains (codes p.path) (codes bundle_id)

abbrev pub info_match : String → InfoProcess → Bool
unfolding has_suffix
info_match bundle_id p = p.name == bundle_id || has_suffix (codes p.real_app_name) (codes bundle_id)

-- the first element that satisfies the test
unfoldable pub find_first : {A : Type 0} → (A → Bool) → List A → Option A
find_first test [] = none
find_first test (a ∷ l) = let rest = find_first test l in if test a then some a else rest

abbrev pub in_bundles : String → Bool
in_bundles path = contains (codes path) (codes "/Bundle/Application/")

-- does a component that ends in ".app" have another after it
unfoldable pub below_app : List (List ℕ) → Bool
unfolding has_suffix
below_app [] = false
below_app (part ∷ []) = false
below_app (part ∷ next ∷ parts) = has_suffix part (codes ".app") || below_app (next ∷ parts)

-- the test of `foregroundAppViaAppService` on a process
unfoldable pub is_user_app : AppProcess → Bool
unfolding split_path below_app
is_user_app p = in_bundles p.path && below_app (split_path (codes p.path))

module _ {E W : Type 0} (lib : Library E W) (quote base : String → String) where
  unfoldable pub list_apps : String → Call W (List AppInfo)
  unfolding using app_infos
  list_apps udid w = and_then (call_in "list apps: get device" (lib.get_device udid) w) λ entry w₁.
      using lib (call_in "list apps: installationproxy" (lib.installation_proxy entry) w₁)
        λ conn w₂.
          and_then (call_in "list apps: browse" (lib.browse_user_apps conn) w₂)
            λ raw w₃. (ok (app_infos raw), w₃)

  -- the connection is not closed
  unfoldable pub install : String → String → Call W (Unit {0})
  install udid path w = and_then (call_in "install: get device" (lib.get_device udid) w) λ entry w₁.
      and_then (call_in "install: zipconduit" (lib.zip_conduit entry) w₁) λ conn w₂.
        call_in (concat ("install " ∷ quote (base path) ∷ [])) (lib.send_file conn path) w₂

  unfoldable pub uninstall : String → String → Call W (Unit {0})
  unfolding using
  uninstall udid bundle_id w =
      and_then (call_in "uninstall: get device" (lib.get_device udid) w) λ entry w₁.
        using lib (call_in "uninstall: installationproxy" (lib.installation_proxy entry) w₁) λ conn.
          call_in (concat ("uninstall " ∷ quote bundle_id ∷ []))
            (lib.uninstall_bundle conn bundle_id)

  unfoldable pub launch_via_app_service : E → String → Call W ℤ
  unfolding using
  launch_via_app_service entry bundle_id w =
      using lib (call_in "appservice" (lib.app_service entry) w) λ conn.
        call_in (concat ("launch via appservice " ∷ quote bundle_id ∷ []))
          (lib.service_launch conn bundle_id)

  unfoldable pub launch_via_instruments : E → String → Call W ℤ
  unfolding using
  launch_via_instruments entry bundle_id w =
      using lib (call_in "process control" (lib.process_control entry) w) λ ctrl.
        call_in (concat ("launch via instruments " ∷ quote bundle_id ∷ []))
          (lib.control_launch ctrl bundle_id)

  -- the two ways, the first only where the device supports it
  unfoldable pub either_way : {A : Type 0} → (E → Call W A) → (E → Call W A) → E → Call W A
  either_way service instruments entry w =
      if lib.supports_rsd entry
      then or_else (service entry w) (instruments entry)
      else instruments entry w

  unfoldable pub launch : String → String → Call W ℤ
  unfolding either_way launch_via_app_service launch_via_instruments
  launch udid bundle_id w = and_then (call_in "launch: get device" (lib.get_device udid) w) (
      either_way (λ entry. launch_via_app_service entry bundle_id)
        (λ entry. launch_via_instruments entry bundle_id))

  abbrev no_process : {A : Type 0} → String → Call W A
  no_process bundle_id w =
      (err (errorf (concat ("no process found for bundle " ∷ quote bundle_id ∷ []))), w)

  abbrev kill_context : ℤ → String
  kill_context pid = concat ("kill pid " ∷ itoa pid ∷ [])

  unfoldable pub kill_service_process : ℕ → String → Option AppProcess → Call W (Unit {0})
  kill_service_process conn bundle_id none w = no_process bundle_id w
  kill_service_process conn bundle_id (some p) w =
      call_in (kill_context p.pid) (lib.service_kill conn p.pid) w

  unfoldable pub kill_via_app_service : E → String → Call W (Unit {0})
  unfolding using find_first kill_service_process
  kill_via_app_service entry bundle_id w =
      using lib (call_in "appservice" (lib.app_service entry) w) λ conn w₁.
        and_then (call_in "list processes" (lib.service_processes conn) w₁)
          λ ps w₂. kill_service_process conn bundle_id (find_first (service_match bundle_id) ps) w₂

  unfoldable pub kill_info_process : ℕ → String → Option InfoProcess → Call W (Unit {0})
  kill_info_process ctrl bundle_id none w = no_process bundle_id w
  kill_info_process ctrl bundle_id (some p) w =
      call_in (kill_context p.pid) (lib.control_kill ctrl p.pid) w

  unfoldable pub kill_via_instruments : E → String → Call W (Unit {0})
  unfolding using find_first kill_info_process
  kill_via_instruments entry bundle_id w =
      using lib (call_in "device info service" (lib.device_info_service entry) w) λ svc w₁.
        and_then (call_in "process list" (lib.process_list svc) w₁) λ ps w₂.
          using lib (call_in "process control" (lib.process_control entry) w₂)
            λ ctrl. kill_info_process ctrl bundle_id (find_first (info_match bundle_id) ps)

  unfoldable pub kill : String → String → Call W (Unit {0})
  unfolding either_way kill_via_app_service kill_via_instruments
  kill udid bundle_id w = and_then (call_in "kill: get device" (lib.get_device udid) w) (
      either_way (λ entry. kill_via_app_service entry bundle_id)
        (λ entry. kill_via_instruments entry bundle_id))

  abbrev pub executable_of : Option AppProcess → Result String
  executable_of none = err (errorf "no foreground user app found")
  executable_of (some p) = ok p.executable_name

  unfoldable pub foreground_via_app_service : E → Call W String
  unfolding using find_first is_user_app
  foreground_via_app_service entry w =
      using lib (call_in "appservice" (lib.app_service entry) w) λ conn w₁.
        and_then (call_in "list processes" (lib.service_processes conn) w₁)
          λ ps w₂. (executable_of (find_first is_user_app ps), w₂)

  abbrev pub name_of : Option InfoProcess → Result String
  name_of none = err (errorf "no foreground user app found via instruments")
  name_of (some p) = ok p.name

  unfoldable pub foreground_via_instruments : E → Call W String
  unfolding using find_first
  foreground_via_instruments entry w =
      using lib (call_in "device info service" (lib.device_info_service entry) w) λ svc w₁.
        and_then (call_in "process list" (lib.process_list svc) w₁)
          λ ps w₂. (name_of (find_first (λ (p : InfoProcess). in_bundles p.real_app_name) ps), w₂)

  unfoldable pub foreground_app : String → Call W String
  unfolding either_way foreground_via_app_service foreground_via_instruments
  foreground_app udid w =
      and_then (call_in "foreground app: get device" (lib.get_device udid) w)
        (either_way foreground_via_app_service foreground_via_instruments)

  abbrev pub app_driver : AppDriver W
  app_driver = record {
    list_apps = list_apps;
    install = install;
    uninstall = uninstall;
    launch = launch;
    kill = kill;
    foreground_app = foreground_app;
  }
