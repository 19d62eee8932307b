-- ===== src/Apps.antt =====
-- `AppManager` (internal/core/app_manager.go): the driver of applications behind a connected device,
-- with WDA to fall back on. The manager of the device is read and not changed.
pub mod Outcome
mod Tests
use ios_pilot.Base.{String, Bool, true, false, Option, none, some, List, if◌then◌else◌}
use ios_pilot.Base.Int.{ℤ, pos}
use ios_pilot.Errors.{GoError, protocol, Result, ok, err, Call, to_error, err_device_not_connected}
use ios_pilot.Driver.{AppInfo, AppDriver, WdaDriver}
use ios_pilot.Device.{DeviceManager, is_full}

-- the UDID of the connected device
unfoldable pub require_connected : DeviceManager → Result String
require_connected dm = elim dm.connected [
  | none ↦ err (protocol (to_error err_device_not_connected none))
  | some d ↦ ok d.udid
]

-- a call on the connected device
unfoldable pub on_device : {W A : Type 0} → (String → Call W A) → DeviceManager → Call W A
unfolding require_connected
on_device call dm w = elim (require_connected dm) [ err e ↦ (err e, w) | ok udid ↦ call udid w ]

-- what `Launch` and `Kill` do when instruments failed with `e`: in full mode WDA is tried, and its
-- own error is dropped
unfoldable pub fall_back :
    {W A : Type 0}
    → Option (WdaDriver W)
    → (WdaDriver W → Call W (Unit {0}))
    → A
    → GoError
    → DeviceManager
    → Call W A
fall_back wda call a e dm w =
    if is_full dm.mode
    then elim wda [
      | none ↦ (err e, w)
      | some d ↦ let (r, w') = call d w in (elim r [ ok _ ↦ ok a | err _ ↦ err e ], w')
    ]
    else (err e, w)

module _ {W : Type 0} (apps : AppDriver W) (wda : Option (WdaDriver W)) where
  unfoldable pub list : DeviceManager → Call W (List AppInfo)
  unfolding on_device
  list = on_device apps.list_apps

  unfoldable pub install : String → DeviceManager → Call W (Unit {0})
  unfolding on_device
  install path = on_device (λ udid. apps.install udid path)

  -- WDA does not tell the process: the answer is then 0.
  unfoldable pub launch_on : String → DeviceManager → String → Call W ℤ
  unfolding fall_back
  launch_on bundle_id dm udid w =
      let (r, w') = apps.launch udid bundle_id w in
      elim r [
        | ok pid ↦ (ok pid, w')
        | err e ↦
            fall_back wda (λ d. d.launch_app dm.wda_url dm.wda_session_id bundle_id) (pos 0) e dm w'
      ]

  unfoldable pub launch : String → DeviceManager → Call W ℤ
  unfolding on_device launch_on
  launch bundle_id dm = on_device (launch_on bundle_id dm) dm

  unfoldable pub kill_on : String → DeviceManager → String → Call W (Unit {0})
  unfolding fall_back
  kill_on bundle_id dm udid w =
      let (r, w') = apps.kill udid bundle_id w in
      elim r [
        | ok _ ↦ (ok tt, w')
        | err e ↦ fall_back wda (λ d. d.kill_app dm.wda_url dm.wda_session_id bundle_id) tt e dm w'
      ]

  unfoldable pub kill : String → DeviceManager → Call W (Unit {0})
  unfolding on_device kill_on
  kill bundle_id dm = on_device (kill_on bundle_id dm) dm

  unfoldable pub uninstall : String → DeviceManager → Call W (Unit {0})
  unfolding on_device
  uninstall bundle_id = on_device (λ udid. apps.uninstall udid bundle_id)

  unfoldable pub foreground : DeviceManager → Call W String
  unfolding on_device
  foreground = on_device apps.foreground_app
