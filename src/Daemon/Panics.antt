-- ===== src/Daemon/Panics.antt =====
-- The requests that panic (internal/daemon/state.go and internal/daemon/server.go).
use ios_pilot.Base.{
  String, ◌≡◌, refl, Bool, true, false, ◌||◌, Option, none, some, List, [], ◌∷◌, arith, ◌==◌,
}
use ios_pilot.Errors.{GoError, Result, ok, err, Call}
use ios_pilot.Driver.{DeviceInfo, LogEntry}
use ios_pilot.Json.{Json, unmarshal}
use ios_pilot.Device.{DeviceStatus, connect, disconnect}
use ios_pilot.Apps as Apps
use ios_pilot.Ui as Ui
use ios_pilot.Logs.Ring.History.{Represents}
use ios_pilot.Logs.Manager.{LogFilter}
use ios_pilot.Logs.Manager.Filter.{get_logs-eq-passing}
use ios_pilot.Daemon.{Env, State, Reply, Outcome, strings, drivers, sys, with_sys, reply, replying}
use ios_pilot.Daemon.Params.{ActParams, lenient, assign_only, assign_log, no_log}
use ios_pilot.Daemon.Handlers.{
  unless_error, strict, strict_text, connected, restarted, done, act, install, restart,
  handle_device_connect,
}
use ios_pilot.Daemon.Reports.{wanted, handle_log}
use ios_pilot.Daemon.Server.{respond}

abbrev pub is_some {ℓ} : {A : Type ℓ} → Option A → Bool
is_some none = false
is_some (some a) = true

-- The methods that ask the driver of crash reports without a test.
abbrev pub asks_crashes : String → Bool
asks_crashes method = method == "log.crash.list" || method == "log.crash.get"

module _ {W : Type 0} where
  pub reply_returns :
      {A : Type 0} (f : A → Reply) (r : Result A) (s : State W) → is_some (reply f r s) ≡ true
  unfolding reply
  reply_returns f (ok a) s = refl
  reply_returns f (err e) s = refl

  replying_returns :
      {A : Type 0} (f : A → Reply) (call : Call W A) (s : State W)
      → is_some (replying f call s) ≡ true
  unfolding replying
  replying_returns f call s =
      let (r, w) = call s.world in reply_returns f r (record s { world = w })

  unless_error_returns :
      {P : Type 0} (context : String) (e : Option GoError) (body : P → State W → Outcome W) (p : P)
      (s : State W)
      → ((p : P) → is_some (body p s) ≡ true)
      → is_some (unless_error context e body p s) ≡ true
  unfolding unless_error
  unless_error_returns context (some x) body p s h = refl
  unless_error_returns context none body p s h = h p

  pub strict_returns :
      {P : Type 0} (context : String) (assign : String → Json → P → P × Option GoError) (empty : P)
      (params : Option Json) (body : P → State W → Outcome W) (s : State W)
      → ((p : P) → is_some (body p s) ≡ true)
      → is_some (strict context assign empty params body s) ≡ true
  unfolding strict
  strict_returns context assign empty params body s h =
      let (p, e) = unmarshal assign params empty in unless_error_returns context e body p s h

  pub strict_text_returns :
      (name : String) (params : Option Json) (body : String → State W → Outcome W) (s : State W)
      → ((p : String) → is_some (body p s) ≡ true)
      → is_some (strict_text name params body s) ≡ true
  unfolding strict_text
  strict_text_returns name params body s h =
      strict_returns "invalid params" (assign_only name) "" params body s h

  connected_returns : (r : Result DeviceStatus) (s : State W) → is_some (connected r s) ≡ true
  unfolding connected
  connected_returns (err e) s = refl
  connected_returns (ok st) s = refl

  restarted_returns : (r : Result DeviceStatus) (s : State W) → is_some (restarted r s) ≡ true
  unfolding restarted
  restarted_returns (err e) s = refl
  restarted_returns (ok st) s = refl

  pub respond_returns :
      (id : Json) (o : Outcome W) → is_some o ≡ true → is_some (respond id o) ≡ true
  unfolding respond
  respond_returns id none h = h
  respond_returns id (some (ok result, s)) h = refl
  respond_returns id (some (err e, s)) h = refl

module _ {W : Type 0} (env : Env W) where
  pub restart_returns : (dev : Option DeviceInfo) (s : State W) → is_some (restart env dev s) ≡ true
  unfolding restart
  restart_returns none s = refl
  restart_returns (some dev) s =
      let (r, x) = connect (drivers env) dev.udid (disconnect (drivers env) (sys s)) in
      restarted_returns r (with_sys s x)

  pub handle_device_connect_returns :
      (params : Option Json) (s : State W) → is_some (handle_device_connect env params s) ≡ true
  unfolding handle_device_connect
  handle_device_connect_returns params s =
      let (r, x) = connect (drivers env) (lenient (assign_only "udid") params "") (sys s) in
      connected_returns r (with_sys s x)

  pub act_returns : (p : ActParams) (s : State W) → is_some (act env p s) ≡ true
  unfolding act
  act_returns p s =
      let c = env.wda_client in
      let dm = s.device_manager in
      ground (
        arith,
        replying_returns (done "tap") (Ui.tap c p.x p.y dm) s,
        replying_returns (done "swipe") (Ui.swipe c p.x1 p.y1 p.x2 p.y2 dm) s,
        replying_returns (done "input") (Ui.input c p.text dm) s,
        replying_returns (done "press") (Ui.press c p.key dm) s,
      )

  pub install_returns : (path : String) (s : State W) → is_some (install env path s) ≡ true
  unfolding install
  install_returns path s =
      let f = λ (_ : Unit {0}). strings (("status", "installed") ∷ ("path", path) ∷ []) in
      ground (
        arith,
        replying_returns f (Apps.install env.app_driver (some env.wda_client) path s.device_manager)
            s,
      )

  pub handle_log_returns :
      (params : Option Json) (s : State W) (hs : List LogEntry)
      → Represents s.log_manager.buffer hs
      → is_some (handle_log env params s) ≡ true
  unfolding handle_log
  handle_log_returns params s hs h =
      let p = lenient assign_log params no_log in
      let f : LogFilter = record { bundle_id = p.filter; level = p.level; search = p.search } in
      ground (arith, get_logs-eq-passing (wanted p.n) f s.log_manager hs h)
