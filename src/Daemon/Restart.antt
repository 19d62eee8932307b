-- ===== src/Daemon/Restart.antt =====
-- The requests that connect (`handleDeviceConnect` and `handleWDARestart` of internal/daemon/state.go).
use ios_pilot.Base.{◌≡◌, refl, true, Option, none, some, arith, if◌then◌else◌}
use ios_pilot.Errors.{Result, ok, err}
use ios_pilot.Json.{Json}
use ios_pilot.Device.{DeviceStatus, new_device_manager, build_status, connect, connected_udid}
use ios_pilot.Device.Connect.{connect_status}
use ios_pilot.Logs.Manager.{LogManager, start}
use ios_pilot.Daemon.{Env, State, Outcome, wda_status, drivers, sys, with_sys}
use ios_pilot.Daemon.Params.{lenient, assign_only}
use ios_pilot.Daemon.Handlers.{connected, handle_device_connect}

module _ {W : Type 0} where
  -- What "wda.restart" makes of the manager: its report, or a manager without a device.
  abbrev pub Restarted : LogManager → Outcome W → Type 0
  Restarted logs none = ⊥
  Restarted logs (some (ok reply, s)) =
      (reply ≡ wda_status (build_status s.device_manager).wda) × (s.log_manager ≡ logs)
  Restarted logs (some (err e, s)) =
      (s.device_manager ≡ new_device_manager) × (s.log_manager ≡ logs)

  -- What "device.connect" makes of the capture of logs: a failure leaves it; after a success it
  -- runs, for the device that it ran for before if it did, and else for the one that is connected.
  abbrev pub LogsStarted : LogManager → Outcome W → Type 0
  LogsStarted logs none = ⊥
  LogsStarted logs (some (ok reply, s)) =
      (s.log_manager.running ≡ true)
      × (s.log_manager.udid ≡ (if logs.running then logs.udid else connected_udid s.device_manager))
  LogsStarted logs (some (err e, s)) = s.log_manager ≡ logs

  connected-LogsStarted :
      (r : Result DeviceStatus) (s : State W)
      → ((st : DeviceStatus)
          → r ≡ ok st
          → (st.connected ≡ true) × (st.udid ≡ connected_udid s.device_manager))
      → LogsStarted s.log_manager (connected r s)
  unfolding connected start
  connected-LogsStarted (ok st) s good = let h = good st refl in ground arith
  connected-LogsStarted (err e) s good = refl

module _ {W : Type 0} (env : Env W) where
  -- After a successful "device.connect" logs are captured. If they were captured already, they are
  -- still those of the device that they were started for, whatever device is connected now.
  pub handle_device_connect-LogsStarted :
      (params : Option Json) (s : State W)
      → LogsStarted s.log_manager (handle_device_connect env params s)
  unfolding handle_device_connect
  handle_device_connect-LogsStarted params s =
      let udid = lenient (assign_only "udid") params "" in
      let (r, x) = connect (drivers env) udid (sys s) in
      connected-LogsStarted r (with_sys s x)
        (λ st e. let shown = connect_status (drivers env) udid (sys s) st e in (shown.1, shown.2))
