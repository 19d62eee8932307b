-- ===== src/Cli/Gestures.antt =====
-- `ios-pilot act` from the words of the command line to the driver (internal/cli/act.go, the daemon's
-- handleAct and internal/core/ui_controller.go).
use ios_pilot.Base.{arith, String, ◌≡◌, refl, ap, ◌∙◌, Bool, true, false, ◌&&◌, some, List, [], ◌∷◌}
use ios_pilot.Base.Int.{ℤ}
use ios_pilot.Base.Text.{itoa}
use ios_pilot.Base.Decimal.{in_range, atoi-itoa}
use ios_pilot.Errors.{Result, ok, err, Call}
use ios_pilot.Json.{
  Json, num, str, obj, end, field, fits_int, unmarshal, into_struct, into_fields, into_string,
  into_int,
}
use ios_pilot.Driver.{WdaDriver}
use ios_pilot.Device.{DeviceManager}
use ios_pilot.Ui as Ui
use ios_pilot.Daemon.{Env, State, Reply, reply, replying}
use ios_pilot.Daemon.Params.{assign_act}
use ios_pilot.Daemon.Handlers.{handle_act, strict, unless_error, act, done}
use ios_pilot.Daemon.Server.{register_handlers, find_handler}
use ios_pilot.Cli.{Output, Shell, request}
use ios_pilot.Cli.Commands.{ask, is_help, act_plan, cmd_act}
use ios_pilot.Cli.Local.{
  Link, resting, local_shell, hung_up, subcommand_asks, shown, reply_fits, request_handled,
}

-- a gesture, and the words that ask for it
pub data Gesture : Type 0 where
  tap : ℤ → ℤ → Gesture
  swipe : ℤ → ℤ → ℤ → ℤ → Gesture
  input : String → Gesture
  press : String → Gesture

abbrev pub words : Gesture → List String
words (tap x y) = "tap" ∷ itoa x ∷ itoa y ∷ []
words (swipe x1 y1 x2 y2) = "swipe" ∷ itoa x1 ∷ itoa y1 ∷ itoa x2 ∷ itoa y2 ∷ []
words (input text) = "input" ∷ text ∷ []
words (press key) = "press" ∷ key ∷ []

abbrev pub action : Gesture → String
action (tap x y) = "tap"
action (swipe x1 y1 x2 y2) = "swipe"
action (input text) = "input"
action (press key) = "press"

-- its numbers are in the range of `int`
abbrev pub numbers_fit : Gesture → Bool
numbers_fit (tap x y) = in_range x && in_range y
numbers_fit (swipe x1 y1 x2 y2) = in_range x1 && in_range y1 && in_range x2 && in_range y2
numbers_fit _ = true

-- what the controller does for it
abbrev pub perform : {W : Type 0} → WdaDriver W → Gesture → DeviceManager → Call W (Unit {0})
perform wda (tap x y) dm = Ui.tap wda x y dm
perform wda (swipe x1 y1 x2 y2) dm = Ui.swipe wda x1 y1 x2 y2 dm
perform wda (input text) dm = Ui.input wda text dm
perform wda (press key) dm = Ui.press wda key dm

abbrev params : Gesture → Json
params (tap x y) = obj (field "action" (str "tap") (field "x" (num x) (field "y" (num y) end)))
params (swipe x1 y1 x2 y2) = obj (
    field "action" (str "swipe")
      (field "x1" (num x1) (field "x2" (num x2) (field "y1" (num y1) (field "y2" (num y2) end)))))
params (input text) = obj (field "action" (str "input") (field "text" (str text) end))
params (press key) = obj (field "action" (str "press") (field "key" (str key) end))

fits : (z : ℤ) → in_range z ≡ true → fits_int z ≡ true
fits z h = ground (arith, h)

abbrev rest : Gesture → List String
rest (tap x y) = itoa x ∷ itoa y ∷ []
rest (swipe x1 y1 x2 y2) = itoa x1 ∷ itoa y1 ∷ itoa x2 ∷ itoa y2 ∷ []
rest (input text) = text ∷ []
rest (press key) = key ∷ []

planned :
    (quote : String → String) (g : Gesture)
    → numbers_fit g ≡ true
    → act_plan quote (action g) (rest g) ≡ ask "act" (some (params g))
unfolding act_plan
planned quote (tap x y) h =
    rw (atoi-itoa x (ground (arith, h)), atoi-itoa y (ground (arith, h))) refl
planned quote (swipe x1 y1 x2 y2) h =
    rw
      (
        atoi-itoa x1 (ground (arith, h)),
        atoi-itoa y1 (ground (arith, h)),
        atoi-itoa x2 (ground (arith, h)),
        atoi-itoa y2 (ground (arith, h)),
      )
      refl
planned quote (input text) h = refl
planned quote (press key) h = refl

module _ {W : Type 0} (env : Env W) where
  -- the answer of the handler to what the controller did
  abbrev pub gesture_reply : Gesture → Result (Unit {0}) → Result Reply
  gesture_reply g (ok _) = ok (done (action g) tt)
  gesture_reply g (err e) = err e

  handled :
      (g : Gesture) (s : State W)
      → numbers_fit g ≡ true
      → handle_act env (some (params g)) s
        ≡ reply
            (done (action g))
            (perform env.wda_client g s.device_manager s.world).0
            (record s { world = (perform env.wda_client g s.device_manager s.world).1 })
  unfolding handle_act strict unless_error act replying into_struct into_fields into_string into_int
      assign_act unmarshal
  handled (tap x y) s h = rw (fits x (ground (arith, h)), fits y (ground (arith, h))) refl
  handled (swipe x1 y1 x2 y2) s h =
      rw
        (
          fits x1 (ground (arith, h)),
          fits x2 (ground (arith, h)),
          fits y1 (ground (arith, h)),
          fits y2 (ground (arith, h)),
        )
        refl
  handled (input text) s h = refl
  handled (press key) s h = refl

  found : find_handler "act" (register_handlers env) ≡ some (handle_act env)
  unfolding find_handler register_handlers
  found = refl

  module _ (enc : Reply → Json) where
    performed :
        (g : Gesture) (sh : Shell (Link W)) (s : State W) (os : List Output) (r : Result (Unit {0}))
        (w : W)
        → numbers_fit g ≡ true
        → perform env.wda_client g s.device_manager s.world ≡ (r, w)
        → reply_fits env enc (gesture_reply g r) ≡ true
        → request
            (local_shell env enc sh)
            "act"
            (some (params g))
            (record { world = resting env enc s; out = os })
          ≡ shown env enc sh
              (gesture_reply g r)
              (record { world = resting env enc (record s { world = w }); out = os })
    unfolding reply
    performed g sh s os (ok u) w h did fine =
        request_handled env enc sh "act" (some (params g)) (handle_act env) s
          (record s { world = w }) (gesture_reply g (ok u)) os found (handled g s h ∙ rw did refl)
          fine
    performed g sh s os (err e) w h did fine =
        request_handled env enc sh "act" (some (params g)) (handle_act env) s
          (record s { world = w }) (gesture_reply g (err e)) os found (handled g s h ∙ rw did refl)
          fine

    asked :
        (g : Gesture) (sh : Shell (Link W)) (s : State W) (os : List Output) (r : Result (Unit {0}))
        (w : W)
        → numbers_fit g ≡ true
        → is_help (action g) ≡ false
        → perform env.wda_client g s.device_manager s.world ≡ (r, w)
        → reply_fits env enc (gesture_reply g r) ≡ true
        → cmd_act
            (local_shell env enc sh)
            (action g ∷ rest g)
            (record { world = resting env enc s; out = os })
          ≡ hung_up env enc sh (
              shown env enc sh
                (gesture_reply g r)
                (record { world = resting env enc (record s { world = w }); out = os }))
    unfolding cmd_act
    asked g sh s os r w h word did fine =
        subcommand_asks env enc sh "act" (act_plan sh.os.quote) (action g) (rest g) "act"
          (some (params g)) (record { world = resting env enc s; out = os }) word
          (planned sh.os.quote g h)
        ∙ ap (hung_up env enc sh) (performed g sh s os r w h did fine)

    -- A gesture that is asked for on the command line, with its numbers in decimal, is performed by the
    -- daemon's controller with these numbers and texts. Where the controller returns no error the command prints
    -- the answer and leaves with 0, and otherwise it prints the error and leaves with 1. The numbers
    -- and the code of an error are in the range of `int`.
    pub cmd_act_performs :
        (g : Gesture) (sh : Shell (Link W)) (s : State W) (os : List Output) (r : Result (Unit {0}))
        (w : W)
        → numbers_fit g ≡ true
        → perform env.wda_client g s.device_manager s.world ≡ (r, w)
        → reply_fits env enc (gesture_reply g r) ≡ true
        → cmd_act
            (local_shell env enc sh)
            (words g)
            (record { world = resting env enc s; out = os })
          ≡ hung_up env enc sh (
              shown env enc sh
                (gesture_reply g r)
                (record { world = resting env enc (record s { world = w }); out = os }))
    cmd_act_performs (tap x y) sh s os r w h did fine = asked (tap x y) sh s os r w h refl did fine
    cmd_act_performs (swipe x1 y1 x2 y2) sh s os r w h did fine =
        asked (swipe x1 y1 x2 y2) sh s os r w h refl did fine
    cmd_act_performs (input text) sh s os r w h did fine =
        asked (input text) sh s os r w h refl did fine
    cmd_act_performs (press key) sh s os r w h did fine =
        asked (press key) sh s os r w h refl did fine
