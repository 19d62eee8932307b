-- ===== src/Apps/Outcome.antt =====
-- When the operations on applications succeed, and with what error they fail.
use ios_pilot.Base.{String, ◌≡◌, Bool, true, false, ◌&&◌, Option, none, some, arith}
use ios_pilot.Base.Int.{ℤ, pos}
use ios_pilot.Errors.{
  GoError, protocol, Result, ok, err, Call, is_ok, to_error, err_device_not_connected,
}
use ios_pilot.Driver.{DeviceInfo, AppDriver, WdaDriver}
use ios_pilot.Device.{DeviceManager, is_full}
use ios_pilot.Apps.{list, install, launch, kill, uninstall, foreground}

abbrev pub not_connected : GoError
not_connected = protocol (to_error err_device_not_connected none)

-- WDA can be asked, and does what it is asked for
abbrev pub wda_accepts :
    {W : Type 0}
    → Option (WdaDriver W)
    → (WdaDriver W → Call W (Unit {0}))
    → DeviceManager
    → W
    → Bool
wda_accepts wda call dm w =
    is_full dm.mode && elim wda [ none ↦ false | some d ↦ is_ok (call d w).0 ]

module _ {W : Type 0} (apps : AppDriver W) (wda : Option (WdaDriver W)) where
  -- Without a connected device each of the six operations answers "Device not connected", and asks
  -- no driver.
  pub disconnected_refused :
      (dm : DeviceManager) (x : String) (w : W)
      → dm.connected ≡ none
      → (list apps wda dm w ≡ (err not_connected, w))
        × (install apps wda x dm w ≡ (err not_connected, w))
        × (launch apps wda x dm w ≡ (err not_connected, w))
        × (kill apps wda x dm w ≡ (err not_connected, w))
        × (uninstall apps wda x dm w ≡ (err not_connected, w))
        × (foreground apps wda dm w ≡ (err not_connected, w))
  unfolding list install launch kill uninstall foreground
  disconnected_refused dm x w gone = ground arith

  -- On a connected device `Launch` succeeds exactly if instruments do or, after they failed, WDA does
  -- in full mode. The process is the one that instruments tell, and 0 from WDA. If both fail, the
  -- error is that of instruments.
  pub launch_outcome :
      (bundle_id : String) (dm : DeviceManager) (d : DeviceInfo) (r : Result ℤ) (w w' : W)
      → dm.connected ≡ some d
      → apps.launch d.udid bundle_id w ≡ (r, w')
      → let by_wda =
          wda_accepts wda (λ c. c.launch_app dm.wda_url dm.wda_session_id bundle_id) dm w' in
        (launch apps wda bundle_id dm w).0
        ≡ elim r [ ok pid ↦ ok pid | err e ↦ elim by_wda [ true ↦ ok (pos 0) | false ↦ err e ] ]
  unfolding launch
  launch_outcome bundle_id dm d (ok pid) w w' here asked = ground (arith, here, asked)
  launch_outcome bundle_id dm d (err e) w w' here asked = ground (arith, here, asked)

  -- On a connected device `Kill` succeeds exactly if instruments do or, after they failed, WDA
  -- does in full mode. If both fail, the error is that of instruments.
  pub kill_outcome :
      (bundle_id : String) (dm : DeviceManager) (d : DeviceInfo) (r : Result (Unit {0})) (w w' : W)
      → dm.connected ≡ some d
      → apps.kill d.udid bundle_id w ≡ (r, w')
      → let by_wda =
          wda_accepts wda (λ c. c.kill_app dm.wda_url dm.wda_session_id bundle_id) dm w' in
        (kill apps wda bundle_id dm w).0
        ≡ elim r [ ok _ ↦ ok tt | err e ↦ elim by_wda [ true ↦ ok tt | false ↦ err e ] ]
  unfolding kill
  kill_outcome bundle_id dm d (ok u) w w' here asked = ground (arith, here, asked)
  kill_outcome bundle_id dm d (err e) w w' here asked = ground (arith, here, asked)
