-- ===== src/Daemon/Phone.antt =====
-- A daemon that has the laboratory's phone, for the tests.
use ios_pilot.Base.{true, false, none, some, [], ◌∷◌, replicate}
use ios_pilot.Errors.{ok}
use ios_pilot.Config.{default}
use ios_pilot.Device.{DeviceManager, new_device_manager, local_wda_url, degraded, full}
use ios_pilot.Logs.Ring.{RingBuffer, zero_entry}
use ios_pilot.Lab.{
  World, phone, device_driver, app_driver, screenshot_driver, tunnel_driver, wda_driver,
  wda_process_driver, host,
}
use ios_pilot.Daemon.{Env, State}

unfoldable pub env : Env World
unfolding default
env = record {
  device_driver = device_driver;
  app_driver = app_driver;
  screenshot_driver = screenshot_driver;
  tunnel_driver = tunnel_driver;
  wda_client = wda_driver;
  wda_process_driver = wda_process_driver;
  crash_driver = none;
  close = λ h w. (ok tt, record w { closed = h ∷ w.closed });
  host = host;
  config = default "/home/ann";
  quote = λ s. s;
  fold = λ c. c;
  uptime = λ _. "1s";
  go_version = "go1.25";
}

abbrev pub ring : RingBuffer
ring = record { entries = replicate 4 zero_entry; size = 4; head = 0; count = 0 }

abbrev pub idle : State World
idle = record {
  device_manager = new_device_manager;
  log_manager = record {
    buffer = ring;
    udid = "";
    running = false;
    subscribers = [];
    channels = [];
  };
  world = record { ready = false; next = 1; closed = [] };
}

abbrev pub with_phone : DeviceManager
with_phone = record {
  connected = some phone;
  wda_session_id = "";
  wda_url = local_wda_url;
  mode = degraded;
  port_forwarder = none;
  wda_process = none;
}

abbrev pub full_phone : DeviceManager
full_phone = record with_phone {
  wda_session_id = "S1";
  mode = full;
  port_forwarder = some 1;
  wda_process = some 2;
}

abbrev pub after : State World
after = record {
  device_manager = full_phone;
  log_manager = record (idle.log_manager) { udid = "A1"; running = true };
  world = record { ready = true; next = 3; closed = [] };
}
