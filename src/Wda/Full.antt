-- ===== src/Wda/Full.antt =====
-- The device manager (internal/core/device_manager.go) with the client of this program as its driver
-- of WDA (internal/driver/wda/client.go).
use ios_pilot.Base.{String, ◌≡◌, ◌≢◌, refl, Bool, true, false, if◌then◌else◌, some}
use ios_pilot.Errors.{Result, ok, err}
use ios_pilot.Driver.{DeviceInfo}
use ios_pilot.Device.{
  degraded, full, Drivers, Sys, DeviceStatus, local_wda_url, connect, connect_udid, connect_device,
  resolve_udid, establish, session_mode, probe_wda, find_wda, open_session, open_tunnel,
}
use ios_pilot.Wda.Payload.{Net}
use ios_pilot.Wda.Client.{create_session, wda_client}
use ios_pilot.Wda.Named.{create_session_named}

made_of_full :
    {W : Type 0} (r : Result String) (s : Sys W)
    → (session_mode r s).0 ≡ full
    → r ≡ ok (session_mode r s).1
made_of_full (ok sid) s h = refl
made_of_full (err e) s h = absurd cc

module _ {W : Type 0} (net : Net W) where
  open_session_named :
      (drv : Drivers W) (s : Sys W)
      → (open_session drv (wda_client net) s).0 ≡ full
      → (open_session drv (wda_client net) s).1 ≢ ""
  unfolding open_session
  open_session_named drv s h =
      let (r, w) = create_session net local_wda_url s.world in
      create_session_named net local_wda_url s.world (open_session drv (wda_client net) s).1
        (made_of_full r (record s { world = w }) h)

  picked_named :
      (drv : Drivers W) (up : Bool) (s : Sys W)
      → (if up then open_session drv (wda_client net) s else (degraded, "", s)).0 ≡ full
      → (if up then open_session drv (wda_client net) s else (degraded, "", s)).1 ≢ ""
  picked_named drv true s h = open_session_named drv s h
  picked_named drv false s h = absurd cc

  probe_named :
      (drv : Drivers W) (udid : String) (s : Sys W)
      → drv.wda_driver ≡ some (wda_client net)
      → (probe_wda drv udid s).0 ≡ full
      → (probe_wda drv udid s).1 ≢ ""
  unfolding probe_wda
  probe_named drv udid s here =
      let drv' : Drivers W = record drv { wda_driver = some (wda_client net) } in
      let (up, s') = find_wda drv' (wda_client net) udid s in rw here (picked_named drv' up s')

  establish_named :
      (drv : Drivers W) (udid : String) (info : DeviceInfo) (s : Sys W)
      → drv.wda_driver ≡ some (wda_client net)
      → (establish drv udid info s).manager.mode ≡ full
      → (establish drv udid info s).manager.wda_session_id ≢ ""
  unfolding establish
  establish_named drv udid info s here h = probe_named drv udid (open_tunnel drv udid s) here h

  connect_device_named :
      (drv : Drivers W) (udid : String) (found : Result DeviceInfo) (s : Sys W) (st : DeviceStatus)
      → drv.wda_driver ≡ some (wda_client net)
      → (connect_device drv udid found s).0 ≡ ok st
      → (connect_device drv udid found s).1.manager.mode ≡ full
      → (connect_device drv udid found s).1.manager.wda_session_id ≢ ""
  unfolding connect_device
  connect_device_named drv udid (err e) s st here h = absurd cc
  connect_device_named drv udid (ok info) s st here h = establish_named drv udid info s here

  connect_udid_named :
      (drv : Drivers W) (resolved : Result String) (s : Sys W) (st : DeviceStatus)
      → drv.wda_driver ≡ some (wda_client net)
      → (connect_udid drv resolved s).0 ≡ ok st
      → (connect_udid drv resolved s).1.manager.mode ≡ full
      → (connect_udid drv resolved s).1.manager.wda_session_id ≢ ""
  unfolding connect_udid
  connect_udid_named drv (err e) s st here h = absurd cc
  connect_udid_named drv (ok udid) s st here h =
      let (found, w) = drv.device_driver.get_device udid s.world in
      connect_device_named drv udid found (record s { world = w }) st here h

  -- With this program's client as the driver of WDA, a `Connect` that succeeds in full mode holds
  -- a session whose identifier is not empty.
  pub connect_full_session :
      (drv : Drivers W) (requested : String) (s : Sys W) (st : DeviceStatus)
      → drv.wda_driver ≡ some (wda_client net)
      → (connect drv requested s).0 ≡ ok st
      → (connect drv requested s).1.manager.mode ≡ full
      → (connect drv requested s).1.manager.wda_session_id ≢ ""
  unfolding connect
  connect_full_session drv requested s st here h =
      let (resolved, w) = resolve_udid drv requested s.world in
      connect_udid_named drv resolved (record s { world = w }) st here h
