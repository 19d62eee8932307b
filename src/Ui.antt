-- ===== src/Ui.antt =====
-- `UiController` (internal/core/ui_controller.go): the gestures of WDA, behind a guard. The WDA driver
-- is there, as it is in the daemon.
pub mod Guard
mod Tests
use ios_pilot.Base.{String, Bool, true, false, Option, none, some, not, if◌then◌else◌}
use ios_pilot.Base.Int.{ℤ}
use ios_pilot.Errors.{
  GoError, protocol, Result, ok, err, Call, to_error, err_device_not_connected, err_wda_unavailable,
}
use ios_pilot.Driver.{WdaDriver}
use ios_pilot.Device.{DeviceManager, is_connected, is_degraded}

-- `nil` is `none`
unfoldable pub require_full_mode : DeviceManager → Option GoError
require_full_mode dm =
    if not (is_connected dm)
    then some (protocol (to_error err_device_not_connected none))
    else if is_degraded dm.mode
    then some (protocol (to_error err_wda_unavailable none))
    else none

-- a gesture behind the guard
unfoldable pub guarded : {W : Type 0} → Call W (Unit {0}) → DeviceManager → Call W (Unit {0})
unfolding require_full_mode
guarded gesture dm w = elim (require_full_mode dm) [ some e ↦ (err e, w) | none ↦ gesture w ]

module _ {W : Type 0} (wda : WdaDriver W) where
  unfoldable pub tap : ℤ → ℤ → DeviceManager → Call W (Unit {0})
  unfolding guarded
  tap x y dm = guarded (wda.tap dm.wda_url dm.wda_session_id x y) dm

  unfoldable pub swipe : ℤ → ℤ → ℤ → ℤ → DeviceManager → Call W (Unit {0})
  unfolding guarded
  swipe x1 y1 x2 y2 dm = guarded (wda.swipe dm.wda_url dm.wda_session_id x1 y1 x2 y2) dm

  unfoldable pub input : String → DeviceManager → Call W (Unit {0})
  unfolding guarded
  input text dm = guarded (wda.input_text dm.wda_url dm.wda_session_id text) dm

  -- `Press` has the tests of `requireFullMode` written out
  unfoldable pub press : String → DeviceManager → Call W (Unit {0})
  press key dm w =
      if not (is_connected dm)
      then (err (protocol (to_error err_device_not_connected none)), w)
      else if is_degraded dm.mode
      then (err (protocol (to_error err_wda_unavailable none)), w)
      else wda.press_button dm.wda_url dm.wda_session_id key w
