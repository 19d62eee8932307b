-- ===== src/Device.antt =====
-- `DeviceManager` (internal/core/device_manager.go). The drivers are a parameter; a nil driver is
-- `none`. A method is one call here; the goroutines that interleave are in Device.Threads.
pub mod Coherent
pub mod Connect
pub mod Handles
pub mod Threads
mod Tests
use ios_pilot.Base.{
  ℕ, String, Bool, true, false, Option, none, some, List, [], ◌∷◌, ◌==◌, not, ◌&&◌, if◌then◌else◌,
}
use ios_pilot.Base.Text.{concat}
use ios_pilot.Errors.{GoError, errorf, wrapped, Result, ok, err, Call}
use ios_pilot.Driver.{DeviceInfo, DeviceDriver, TunnelDriver, WdaDriver, WdaProcessDriver}

-- "", "degraded" and "full", the only values that the field `mode` takes
pub data Mode : Type 0 where
  unset degraded full : Mode

abbrev pub is_full : Mode → Bool
is_full full = true
is_full _ = false

abbrev pub is_degraded : Mode → Bool
is_degraded degraded = true
is_degraded _ = false

-- "stopped" and "running", and "" in the zero value
pub data WdaProcessStatus : Type 0 where
  unknown stopped running : WdaProcessStatus

pub record WdaStatus : Type 0 where
  pub status : WdaProcessStatus
  pub mode : Mode

-- `ForegroundApp` is never set.
pub record DeviceStatus : Type 0 where
  pub connected : Bool
  pub udid : String
  pub name : String
  pub ios_version : String
  pub wda : WdaStatus

-- the fields that change; a closer is the number of its handle
pub record DeviceManager : Type 0 where
  pub connected : Option DeviceInfo
  pub wda_session_id : String
  pub wda_url : String
  pub mode : Mode
  pub port_forwarder : Option ℕ
  pub wda_process : Option ℕ

-- the drivers of the manager, and `Close` of the handles that they returned
pub record Drivers (W : Type 0) : Type 0 where
  pub device_driver : DeviceDriver W
  pub tunnel_driver : Option (TunnelDriver W)
  pub wda_driver : Option (WdaDriver W)
  pub wda_process_driver : Option (WdaProcessDriver W)
  pub close : ℕ → Call W (Unit {0})

-- the manager and the world
pub record Sys (W : Type 0) : Type 0 where
  pub manager : DeviceManager
  pub world : W

abbrev pub new_device_manager : DeviceManager
new_device_manager = record {
  connected = none;
  wda_session_id = "";
  wda_url = "";
  mode = unset;
  port_forwarder = none;
  wda_process = none;
}

abbrev pub default_wda_port : String
default_wda_port = "8100"

abbrev pub local_wda_url : String
local_wda_url = concat ("http://localhost:" ∷ default_wda_port ∷ [])

unfoldable pub build_status : DeviceManager → DeviceStatus
build_status dm = elim dm.connected [
  | none ↦ record {
    connected = false;
    udid = "";
    name = "";
    ios_version = "";
    wda = record { status = unknown; mode = unset };
  }
  | some d ↦ record {
    connected = true;
    udid = d.udid;
    name = d.name;
    ios_version = d.ios_version;
    wda = record { status = if is_full dm.mode then running else stopped; mode = dm.mode };
  }
]

abbrev pub is_connected : DeviceManager → Bool
is_connected dm = elim dm.connected [ none ↦ false | some d ↦ true ]

-- `ConnectedDevice().UDID`, and "" where no device is connected
abbrev pub connected_udid : DeviceManager → String
connected_udid dm = elim dm.connected [ none ↦ "" | some d ↦ d.udid ]

-- the device that is meant by an empty UDID
unfoldable pub only_device : Result (List DeviceInfo) → Result String
only_device (err e) = err (wrapped "list devices" e)
only_device (ok []) = err (errorf "no devices connected")
only_device (ok (d ∷ [])) = ok d.udid
only_device (ok (d ∷ d' ∷ ds)) = err (errorf "multiple devices connected; specify a UDID")

-- the mode and the session after `CreateSession`
abbrev pub session_mode : {W : Type 0} → Result String → Sys W → Mode × String × Sys W
session_mode (ok sid) s = (full, sid, s)
session_mode (err e) s = (degraded, "", s)

module _ {W : Type 0} (drv : Drivers W) where
  unfoldable pub list_devices : Call W (List DeviceInfo)
  list_devices = drv.device_driver.list_devices

  unfoldable pub resolve_udid : String → Call W String
  unfolding only_device list_devices
  resolve_udid udid w =
      if udid == "" then (let (r, w') = list_devices w in (only_device r, w')) else (ok udid, w)

  -- the tunnel and the forwarded port; a failure of either is not fatal
  unfoldable pub open_tunnel : String → Sys W → Sys W
  open_tunnel udid s = elim drv.tunnel_driver [
    | none ↦ s
    | some t ↦
        let (_, w) = t.ensure_tunnel udid s.world in
        let (fwd, w') = t.forward_port udid 8100 8100 w in
        elim fwd [
          | err e ↦ record s { world = w' }
          | ok h ↦ record { manager = record (s.manager) { port_forwarder = some h }; world = w' }
        ]
  ]

  -- `alive, _ = Status(url)`: an error comes with `false`
  unfoldable pub alive : WdaDriver W → W → Bool × W
  alive d w = let (r, w') = d.status local_wda_url w in (elim r [ ok b ↦ b | err e ↦ false ], w')

  -- WDA does not answer: launch it, and ask again
  unfoldable pub launch_wda : WdaDriver W → String → Sys W → Bool × Sys W
  unfolding alive
  launch_wda d udid s = elim drv.wda_process_driver [
    | none ↦ (false, s)
    | some p ↦
        let (r, w) = p.start_wda udid s.world in
        elim r [
          | err e ↦ (false, record s { world = w })
          | ok h ↦
              let (up, w') = alive d w in
              (up, record { manager = record (s.manager) { wda_process = some h }; world = w' })
        ]
  ]

  -- is WDA there, after a launch if need be
  unfoldable pub find_wda : WdaDriver W → String → Sys W → Bool × Sys W
  unfolding alive launch_wda
  find_wda d udid s =
      let (up, w) = alive d s.world in
      if up then (true, record s { world = w }) else launch_wda d udid (record s { world = w })

  unfoldable pub open_session : WdaDriver W → Sys W → Mode × String × Sys W
  open_session d s =
      let (r, w) = d.create_session local_wda_url s.world in session_mode r (record s { world = w })

  -- the mode, the session and the state after WDA was probed
  unfoldable pub probe_wda : String → Sys W → Mode × String × Sys W
  unfolding find_wda open_session
  probe_wda udid s = elim drv.wda_driver [
    | none ↦ (degraded, "", s)
    | some d ↦
        let (up, s') = find_wda d udid s in if up then open_session d s' else (degraded, "", s')
  ]

  -- what `Connect` does once the device is known
  unfoldable pub establish : String → DeviceInfo → Sys W → Sys W
  unfolding open_tunnel probe_wda
  establish udid info s =
      let (mode, sid, s') = probe_wda udid (open_tunnel udid s) in
      record s' {
        manager = record (s'.manager) {
          connected = some info;
          wda_url = local_wda_url;
          wda_session_id = sid;
          mode = mode;
        };
      }

  -- `Connect` after `GetDevice`
  unfoldable pub connect_device : String → Result DeviceInfo → Sys W → Result DeviceStatus × Sys W
  unfolding establish build_status
  connect_device udid (err e) s = (err (wrapped (concat ("get device " ∷ udid ∷ [])) e), s)
  connect_device udid (ok info) s =
      let s' = establish udid info s in (ok (build_status s'.manager), s')

  -- `Connect` after the UDID is resolved
  unfoldable pub connect_udid : Result String → Sys W → Result DeviceStatus × Sys W
  unfolding connect_device
  connect_udid (err e) s = (err e, s)
  connect_udid (ok udid) s =
      let (found, w) = drv.device_driver.get_device udid s.world in
      connect_device udid found (record s { world = w })

  unfoldable pub connect : String → Sys W → Result DeviceStatus × Sys W
  unfolding resolve_udid connect_udid
  connect requested s =
      let (resolved, w) = resolve_udid requested s.world in
      connect_udid resolved (record s { world = w })

  -- best-effort deletion of the session
  unfoldable pub end_session : DeviceManager → W → W
  end_session dm w = elim drv.wda_driver [
    | none ↦ w
    | some d ↦
        if dm.wda_session_id == "" then w else (d.delete_session dm.wda_url dm.wda_session_id w).1
  ]

  unfoldable pub close_handle : Option ℕ → W → W
  close_handle none w = w
  close_handle (some h) w = (drv.close h w).1

  unfoldable pub disconnect : Sys W → Sys W
  unfolding end_session close_handle
  disconnect s = elim s.manager.connected [
    | none ↦ s
    | some d ↦ record {
      manager = record {
        connected = none;
        wda_session_id = "";
        wda_url = "";
        mode = unset;
        port_forwarder = none;
        wda_process = none;
      };
      world =
          close_handle s.manager.port_forwarder
            (close_handle s.manager.wda_process (end_session s.manager s.world));
    }
  ]
