-- ===== src/Daemon.antt =====
-- `State` and its handlers (internal/daemon/state.go), as internal/cli/root.go (lines 217 to 247) wires
-- them, and the routing of a request (internal/daemon/server.go). The log manager is there. A handler
-- is `none` where Go panics. Requests are handled one after the other.
pub mod Params
pub mod Handlers
pub mod Reports
pub mod Server
pub mod Answers
pub mod Refuses
pub mod Unconnected
pub mod Table
pub mod Preserves
pub mod Reachable
pub mod Panics
pub mod Returns
pub mod Survives
pub mod Restart
pub mod Phone
mod Tests
use ios_pilot.Base.{ℕ, String, Bool, Option, none, some, List}
use ios_pilot.Base.Int.{ℤ}
use ios_pilot.Errors.{GoError, Result, ok, err, Call}
use ios_pilot.Driver.{
  DeviceInfo, AppInfo, LogEntry, CrashReport, DeviceDriver, AppDriver, ScreenshotDriver,
  CrashDriver, TunnelDriver, WdaDriver, WdaProcessDriver,
}
use ios_pilot.Config.{Config}
use ios_pilot.Device.{DeviceManager, DeviceStatus, WdaStatus, Drivers, Sys}
use ios_pilot.Logs.Manager.{LogManager}
use ios_pilot.Checks.{CheckResult}
use ios_pilot.Screen.Capture.{Host, LookResult}
use ios_pilot.Json.{Json}

-- The drivers, the configuration and the host. The daemon passes a nil driver of crash reports.
-- `quote` is the verb %q, `fold` the table of lower case from 128 on, `uptime` the age of the daemon
-- as a text.
pub record Env (W : Type 0) : Type 0 where
  pub device_driver : DeviceDriver W
  pub app_driver : AppDriver W
  pub screenshot_driver : ScreenshotDriver W
  pub tunnel_driver : TunnelDriver W
  pub wda_client : WdaDriver W
  pub wda_process_driver : WdaProcessDriver W
  pub crash_driver : Option (CrashDriver W)
  pub close : ℕ → Call W (Unit {0})
  pub host : Host W
  pub config : Config
  pub quote : String → String
  pub fold : ℕ → ℕ
  pub uptime : W → String
  pub go_version : String

-- the state of the daemon
pub record State (W : Type 0) : Type 0 where
  pub device_manager : DeviceManager
  pub log_manager : LogManager
  pub world : W

-- The values that handlers return; `strings` is a map from texts to texts.
pub data Reply : Type 0 where
  devices : List DeviceInfo → Reply
  device_status : DeviceStatus → Reply
  strings : List (String × String) → Reply
  look_result : LookResult → Reply
  apps : List AppInfo → Reply
  -- the identifier of the bundle, and the process
  launched : String → ℤ → Reply
  log_entries : List LogEntry → Reply
  crashes : List CrashReport → Reply
  crash : CrashReport → Reply
  check_result : CheckResult → Reply
  wda_status : WdaStatus → Reply
  -- uptime, the version of Go, the status of the device, and whether logs are captured
  daemon_status : String → String → DeviceStatus → Bool → Reply

-- A handler, and what it did.
abbrev pub Outcome : Type 0 → Type 0
Outcome W = Option (Result Reply × State W)

abbrev pub Handler : Type 0 → Type 0
Handler W = Option Json → State W → Outcome W

module _ {W : Type 0} (env : Env W) where
  abbrev pub drivers : Drivers W
  drivers = record {
    device_driver = env.device_driver;
    tunnel_driver = some env.tunnel_driver;
    wda_driver = some env.wda_client;
    wda_process_driver = some env.wda_process_driver;
    close = env.close;
  }

-- the part of the state that the device manager acts on, and what it made of it
abbrev pub sys : {W : Type 0} → State W → Sys W
sys s = record { manager = s.device_manager; world = s.world }

abbrev pub with_sys : {W : Type 0} → State W → Sys W → State W
with_sys s x = record s { device_manager = x.manager; world = x.world }

-- the end of a handler: an error is returned as it is
unfoldable pub reply : {W A : Type 0} → (A → Reply) → Result A → State W → Outcome W
reply f (ok a) s = some (ok (f a), s)
reply f (err e) s = some (err e, s)

-- a handler that makes one call of a manager that only acts on the world
unfoldable pub replying : {W A : Type 0} → (A → Reply) → Call W A → State W → Outcome W
unfolding reply
replying f call s = let (r, w) = call s.world in reply f r (record s { world = w })
