-- ===== src/Ui/Guard.antt =====
-- Which gestures reach WDA.
use ios_pilot.Base.{String, ◌≡◌, none, arith}
use ios_pilot.Base.Int.{ℤ}
use ios_pilot.Errors.{protocol, err, Call, to_error, err_device_not_connected, err_wda_unavailable}
use ios_pilot.Driver.{WdaDriver}
use ios_pilot.Device.{DeviceManager, unset, full, degraded}
use ios_pilot.Device.Coherent.{IsCoherent}
use ios_pilot.Ui.{tap, swipe, input, press}

-- What a gesture does by the mode: in full mode it goes to WDA, with the URL and the session of the
-- manager; without a device and in degraded mode it is refused and nothing is asked of WDA.
abbrev pub by_mode : {W : Type 0} → Call W (Unit {0}) → DeviceManager → Call W (Unit {0})
by_mode gesture dm w = elim dm.mode [
  | full ↦ gesture w
  | degraded ↦ (err (protocol (to_error err_wda_unavailable none)), w)
  | unset ↦ (err (protocol (to_error err_device_not_connected none)), w)
]

module _ {W : Type 0} (wda : WdaDriver W) where
  -- For a coherent manager each of the four actions goes to WDA exactly in full mode, with the URL
  -- and the session of the manager. Otherwise WDA is not asked, and the answer is "WDA unavailable"
  -- in degraded mode and "Device not connected" without a device.
  pub actions_by_mode :
      (dm : DeviceManager) (x y x' y' : ℤ) (t : String) (w : W)
      → IsCoherent dm
      → let url = dm.wda_url in
        let sid = dm.wda_session_id in
        (tap wda x y dm w ≡ by_mode (wda.tap url sid x y) dm w)
        × (swipe wda x y x' y' dm w ≡ by_mode (wda.swipe url sid x y x' y') dm w)
        × (input wda t dm w ≡ by_mode (wda.input_text url sid t) dm w)
        × (press wda t dm w ≡ by_mode (wda.press_button url sid t) dm w)
  unfolding tap swipe input press
  actions_by_mode dm x y x' y' t w h = ground (arith, h)
