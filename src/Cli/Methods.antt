-- ===== src/Cli/Methods.antt =====
-- The methods of the plans of the command line have handlers (internal/cli, internal/daemon/state.go).
use ios_pilot.Base.{
  String, ◌≡◌, refl, Bool, true, false, Option, none, some, List, [], ◌∷◌, ◌==◌, if◌then◌else◌,
}
use ios_pilot.Base.Int.{ℤ}
use ios_pilot.Base.Decimal.{atoi}
use ios_pilot.Daemon.{Env}
use ios_pilot.Daemon.Server.{find_handler, register_handlers}
use ios_pilot.Daemon.Panics.{is_some}
use ios_pilot.Cli.Commands.{
  Plan, ask, refuse, tap_plan, swipe_plan, act_tap, act_swipe, act_input, act_press, one_text,
  act_plan, app_plan, check_plan, device_plan, look_plan, parse_check_element_text, element_plan,
}
use ios_pilot.Cli.Log.{crash_plan}

module _ {W : Type 0} (env : Env W) where
  abbrev pub has_handler : String → Bool
  has_handler method = is_some (find_handler method (register_handlers env))

  -- the method of a request has a handler
  unfoldable pub is_handled : Plan → Bool
  unfolding find_handler register_handlers
  is_handled (ask method params) = has_handler method
  is_handled (refuse os) = true

  either :
      (b : Bool) (p q : Plan)
      → is_handled p ≡ true
      → is_handled q ≡ true
      → is_handled (if b then p else q) ≡ true
  either true p q h k = h
  either false p q h k = k

  tap_handled : (x y : Option ℤ) → is_handled (tap_plan x y) ≡ true
  unfolding is_handled
  tap_handled none y = refl
  tap_handled (some x) none = refl
  tap_handled (some x) (some y) = refl

  swipe_handled : (x1 y1 x2 y2 : Option ℤ) → is_handled (swipe_plan x1 y1 x2 y2) ≡ true
  unfolding is_handled
  swipe_handled none y1 x2 y2 = refl
  swipe_handled (some x1) none x2 y2 = refl
  swipe_handled (some x1) (some y1) none y2 = refl
  swipe_handled (some x1) (some y1) (some x2) none = refl
  swipe_handled (some x1) (some y1) (some x2) (some y2) = refl

  act_tap_handled : (args : List String) → is_handled (act_tap args) ≡ true
  unfolding is_handled
  act_tap_handled [] = refl
  act_tap_handled (x ∷ []) = refl
  act_tap_handled (x ∷ y ∷ args) = tap_handled (atoi x) (atoi y)

  act_swipe_handled : (args : List String) → is_handled (act_swipe args) ≡ true
  unfolding is_handled
  act_swipe_handled [] = refl
  act_swipe_handled (x1 ∷ []) = refl
  act_swipe_handled (x1 ∷ y1 ∷ []) = refl
  act_swipe_handled (x1 ∷ y1 ∷ x2 ∷ []) = refl
  act_swipe_handled (x1 ∷ y1 ∷ x2 ∷ y2 ∷ args) =
      swipe_handled (atoi x1) (atoi y1) (atoi x2) (atoi y2)

  act_input_handled : (args : List String) → is_handled (act_input args) ≡ true
  unfolding is_handled
  act_input_handled [] = refl
  act_input_handled (a ∷ args) = refl

  act_press_handled : (args : List String) → is_handled (act_press args) ≡ true
  unfolding is_handled
  act_press_handled [] = refl
  act_press_handled (a ∷ args) = refl

  text_handled :
      (method key line : String) (args : List String)
      → has_handler method ≡ true
      → is_handled (one_text method key line args) ≡ true
  unfolding is_handled
  text_handled method key line [] h = refl
  text_handled method key line (a ∷ args) h = h

  element_handled : (text : String) → is_handled (element_plan text) ≡ true
  unfolding is_handled
  element_handled text = either (text == "") _ _ refl refl

  pub act_handled :
      (quote : String → String) (a : String) (args : List String)
      → is_handled (act_plan quote a args) ≡ true
  unfolding act_plan is_handled find_handler register_handlers
  act_handled quote a args = either (a == "tap") _ _ (act_tap_handled args) (
      either (a == "swipe") _ _ (act_swipe_handled args) (
        either (a == "input") _ _ (act_input_handled args)
          (either (a == "press") _ _ (act_press_handled args) (refl))))

  pub app_handled :
      (quote : String → String) (a : String) (args : List String)
      → is_handled (app_plan quote a args) ≡ true
  unfolding app_plan is_handled find_handler register_handlers
  app_handled quote a args = either (a == "list") _ _ (refl) (
      either (a == "install") _ _
        (text_handled "app.install" "path" "usage: ios-pilot app install <path>" args refl)
        (either (a == "launch") _ _
          (text_handled "app.launch" "bundle_id" "usage: ios-pilot app launch <bundle_id>" args
            refl)
          (either (a == "kill") _ _
            (text_handled "app.kill" "bundle_id" "usage: ios-pilot app kill <bundle_id>" args refl)
            (either (a == "uninstall") _ _
              (text_handled "app.uninstall" "bundle_id" "usage: ios-pilot app uninstall <bundle_id>"
                args refl)
              (either (a == "foreground") _ _ (refl) (refl))))))

  pub check_handled :
      (quote : String → String) (a : String) (args : List String)
      → is_handled (check_plan quote a args) ≡ true
  unfolding check_plan is_handled find_handler register_handlers
  check_handled quote a args = either (a == "screen") _ _ (refl) (
      either (a == "element") _ _ (element_handled (parse_check_element_text args)) (
        either (a == "app-running") _ _
          (text_handled "check.app_running" "bundle_id"
            "usage: ios-pilot check app-running <bundle_id>" args refl)
          (either (a == "no-crash") _ _
            (text_handled "check.no_crash" "bundle_id" "usage: ios-pilot check no-crash <bundle_id>"
              args refl)
            (refl))))

  pub device_handled :
      (quote : String → String) (a : String) (args : List String)
      → is_handled (device_plan quote a args) ≡ true
  unfolding device_plan is_handled find_handler register_handlers
  device_handled quote a args = either (a == "list") _ _ (refl) (
      either (a == "connect") _ _ (refl)
        (either (a == "status") _ _ (refl) (either (a == "disconnect") _ _ (refl) (refl))))

  pub look_handled :
      (quote : String → String) (args : List String) (ui annotate : Bool)
      → is_handled (look_plan quote args ui annotate) ≡ true
  unfolding look_plan is_handled find_handler register_handlers
  look_handled quote [] ui annotate = refl
  look_handled quote (a ∷ args) ui annotate =
      either (a == "--ui") _ _ (look_handled quote args true annotate)
        (either (a == "--annotate") _ _ (look_handled quote args ui true) refl)

  pub crash_handled : (args : List String) → is_handled (crash_plan args) ≡ true
  unfolding is_handled find_handler register_handlers
  crash_handled [] = refl
  crash_handled (id ∷ args) = refl
