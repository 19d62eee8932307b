-- ===== src/Apps/Tests.antt =====
-- The application manager at the laboratory's phone.
use ios_pilot.Base.{◌≡◌, refl, none, some, [], true}
use ios_pilot.Base.Int.{pos}
use ios_pilot.Errors.{errorf, ok, err}
use ios_pilot.Lab.{World, phone, wda_driver, app_driver}
use ios_pilot.Device.{full, DeviceManager}
use ios_pilot.Apps.{launch}
use ios_pilot.Apps.Outcome.{launch_outcome}

abbrev manager : DeviceManager
manager = record {
  connected = some phone;
  wda_session_id = "S1";
  wda_url = "http://localhost:8100";
  mode = full;
  port_forwarder = none;
  wda_process = none;
}

abbrev world : World
world = record { ready = true; next = 1; closed = [] }

-- instruments fail, and WDA launches
launch_outcome_example :
    (launch app_driver (some wda_driver) "com.shop" manager world).0 ≡ ok (pos 0)
launch_outcome_example =
    launch_outcome app_driver (some wda_driver) "com.shop" manager phone
      (err (errorf "no developer image")) world world refl refl
