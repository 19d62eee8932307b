-- ===== src/Screen/Capture/Tests.antt =====
-- Looks at the laboratory's phone, whose screenshots come from WDA.
use ios_pilot.Base.{◌≡◌, refl, true, false, none, some, []}
use ios_pilot.Errors.{ok}
use ios_pilot.Config.{default, Config}
use ios_pilot.Device.{DeviceManager, degraded, full, local_wda_url}
use ios_pilot.Lab.{canvas, host, World, phone, screenshot_driver, wda_driver}
use ios_pilot.Screen.Capture.{look, capture_by_wda, prepare, png_magic}
use ios_pilot.Screen.Capture.Look.{Shows, look_best_effort}

abbrev cfg : Config
unfolding default
cfg = default "/home/ann"

abbrev full_manager : DeviceManager
full_manager = record {
  connected = some phone;
  wda_session_id = "S1";
  wda_url = local_wda_url;
  mode = full;
  port_forwarder = none;
  wda_process = none;
}

abbrev low_manager : DeviceManager
low_manager = record full_manager { mode = degraded; wda_session_id = "" }

abbrev world : World
world = record { ready = true; next = 1; closed = [] }

taken :
    prepare host screenshot_driver (some wda_driver) cfg full_manager world ≡ (ok png_magic, world)
unfolding prepare capture_by_wda
taken = refl

look_best_effort_example :
    Shows canvas full
      (look host screenshot_driver (some wda_driver) cfg full_manager true false world).0
look_best_effort_example =
    look_best_effort host screenshot_driver cfg (some wda_driver) full_manager (λ _ _ _. refl) true
      false png_magic canvas world world taken refl
