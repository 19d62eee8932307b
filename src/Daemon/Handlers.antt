-- ===== src/Daemon/Handlers.antt =====
-- The handlers for the device, the screen, gestures, applications, WDA and the daemon
-- (internal/daemon/state.go, lines 68 to 237 and 324 to 370). Daemon.Reports has the others.
use ios_pilot.Base.{String, Option, none, some, [], ◌∷◌, ◌==◌, if◌then◌else◌}
use ios_pilot.Base.Text.{concat}
use ios_pilot.Errors.{GoError, errorf, wrapped, Result, ok, err}
use ios_pilot.Driver.{DeviceInfo}
use ios_pilot.Json.{Json, unmarshal}
use ios_pilot.Device.{DeviceStatus, build_status, list_devices, connect, disconnect}
use ios_pilot.Logs.Manager.{start, stop}
use ios_pilot.Apps as Apps
use ios_pilot.Ui as Ui
use ios_pilot.Screen.Capture.{look}
use ios_pilot.Daemon.{
  Env, State, Reply, devices, device_status, strings, look_result, apps, launched, wda_status,
  daemon_status, Outcome, Handler, drivers, sys, with_sys, replying,
}
use ios_pilot.Daemon.Params.{
  ActParams, assign_only, assign_look, assign_act, no_look, no_act, lenient,
}

-- `if err := json.Unmarshal(params, &p); err != nil { return nil, fmt.Errorf("<context>: %w", err) }`
unfoldable pub unless_error :
    {W P : Type 0} → String → Option GoError → (P → State W → Outcome W) → P → State W → Outcome W
unless_error context (some x) body p s = some (err (wrapped context x), s)
unless_error context none body p s = body p s

unfoldable pub strict :
    {W P : Type 0}
    → String
    → (String → Json → P → P × Option GoError)
    → P
    → Option Json
    → (P → State W → Outcome W)
    → State W
    → Outcome W
unfolding unless_error
strict context assign empty params body s =
    let (p, e) = unmarshal assign params empty in unless_error context e body p s

-- the struct with one text
unfoldable pub strict_text :
    {W : Type 0} → String → Option Json → (String → State W → Outcome W) → State W → Outcome W
unfolding strict
strict_text name params body s = strict "invalid params" (assign_only name) "" params body s

abbrev pub done : String → Unit {0} → Reply
done action _ = strings (("status", "ok") ∷ ("action", action) ∷ [])

-- the log manager starts where `Connect` succeeded
unfoldable pub connected : {W : Type 0} → Result DeviceStatus → State W → Outcome W
connected (err e) s = some (err e, s)
connected (ok st) s = some (
  ok (device_status st),
  if st.connected then record s { log_manager = start st.udid s.log_manager } else s,
)

unfoldable pub restarted : {W : Type 0} → Result DeviceStatus → State W → Outcome W
restarted (err e) s = some (err (wrapped "reconnect failed" e), s)
restarted (ok st) s = some (ok (wda_status st.wda), s)

module _ {W : Type 0} (env : Env W) where
  unfoldable pub handle_device_list : Handler W
  unfolding replying
  handle_device_list params s = replying devices (list_devices (drivers env)) s

  unfoldable pub handle_device_connect : Handler W
  unfolding lenient connected
  handle_device_connect params s =
      let (r, x) = connect (drivers env) (lenient (assign_only "udid") params "") (sys s) in
      connected r (with_sys s x)

  unfoldable pub handle_device_status : Handler W
  handle_device_status params s = some (ok (device_status (build_status s.device_manager)), s)

  unfoldable pub handle_device_disconnect : Handler W
  handle_device_disconnect params s =
      let s' = record s { log_manager = stop s.log_manager } in
      some (
        ok (strings (("status", "disconnected") ∷ [])),
        with_sys s' (disconnect (drivers env) (sys s')),
      )

  unfoldable pub handle_look : Handler W
  unfolding lenient replying
  handle_look params s =
      let p = lenient assign_look params no_look in
      replying look_result
        (look env.host env.screenshot_driver (some env.wda_client) env.config s.device_manager
          p.annotate p.ui)
        s

  -- the switch of `handleAct`
  unfoldable pub act : ActParams → State W → Outcome W
  unfolding replying
  act p s =
      if p.action == "tap"
      then replying (done "tap") (Ui.tap env.wda_client p.x p.y s.device_manager) s
      else if p.action == "swipe"
      then replying (done "swipe") (Ui.swipe env.wda_client p.x1 p.y1 p.x2 p.y2 s.device_manager) s
      else if p.action == "input"
      then replying (done "input") (Ui.input env.wda_client p.text s.device_manager) s
      else if p.action == "press"
      then replying (done "press") (Ui.press env.wda_client p.key s.device_manager) s
      else some (err (errorf (concat ("unknown action: " ∷ env.quote p.action ∷ []))), s)

  unfoldable pub handle_act : Handler W
  unfolding strict act
  handle_act params s = strict "invalid act params" assign_act no_act params act s

  unfoldable pub handle_app_list : Handler W
  unfolding replying
  handle_app_list params s =
      replying apps (Apps.list env.app_driver (some env.wda_client) s.device_manager) s

  unfoldable pub install : String → State W → Outcome W
  unfolding replying
  install path s =
      if path == ""
      then some (err (errorf "path is required"), s)
      else replying (λ _. strings (("status", "installed") ∷ ("path", path) ∷ []))
          (Apps.install env.app_driver (some env.wda_client) path s.device_manager) s

  unfoldable pub handle_app_install : Handler W
  unfolding strict_text install
  handle_app_install params s = strict_text "path" params install s

  unfoldable pub launch : String → State W → Outcome W
  unfolding replying
  launch bundle_id s =
      replying (launched bundle_id)
        (Apps.launch env.app_driver (some env.wda_client) bundle_id s.device_manager) s

  unfoldable pub handle_app_launch : Handler W
  unfolding strict_text launch
  handle_app_launch params s = strict_text "bundle_id" params launch s

  unfoldable pub kill : String → State W → Outcome W
  unfolding replying
  kill bundle_id s =
      replying (λ _. strings (("status", "killed") ∷ ("bundle_id", bundle_id) ∷ []))
        (Apps.kill env.app_driver (some env.wda_client) bundle_id s.device_manager) s

  unfoldable pub handle_app_kill : Handler W
  unfolding strict_text kill
  handle_app_kill params s = strict_text "bundle_id" params kill s

  unfoldable pub uninstall : String → State W → Outcome W
  unfolding replying
  uninstall bundle_id s =
      replying (λ _. strings (("status", "uninstalled") ∷ ("bundle_id", bundle_id) ∷ []))
        (Apps.uninstall env.app_driver (some env.wda_client) bundle_id s.device_manager) s

  unfoldable pub handle_app_uninstall : Handler W
  unfolding strict_text uninstall
  handle_app_uninstall params s = strict_text "bundle_id" params uninstall s

  unfoldable pub handle_app_foreground : Handler W
  unfolding replying
  handle_app_foreground params s =
      replying (λ id. strings (("bundle_id", id) ∷ []))
        (Apps.foreground env.app_driver (some env.wda_client) s.device_manager) s

  unfoldable pub handle_wda_status : Handler W
  handle_wda_status params s = some (ok (wda_status (build_status s.device_manager).wda), s)

  -- disconnect and connect again, to the same device
  unfoldable pub restart : Option DeviceInfo → State W → Outcome W
  unfolding restarted
  restart none s = some (err (errorf "no device connected"), s)
  restart (some dev) s =
      let (r, x) = connect (drivers env) dev.udid (disconnect (drivers env) (sys s)) in
      restarted r (with_sys s x)

  unfoldable pub handle_wda_restart : Handler W
  unfolding restart
  handle_wda_restart params s = restart s.device_manager.connected s

  unfoldable pub handle_daemon_status : Handler W
  handle_daemon_status params s = some (
    ok (
        daemon_status (env.uptime s.world) env.go_version (build_status s.device_manager)
          s.log_manager.running),
    s,
  )
