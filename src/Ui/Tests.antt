-- ===== src/Ui/Tests.antt =====
-- The gestures at the laboratory's phone.
use ios_pilot.Base.{refl, none, some, [], true}
use ios_pilot.Lab.{World, phone}
use ios_pilot.Device.{degraded, DeviceManager, local_wda_url}
use ios_pilot.Device.Coherent.{IsCoherent}

abbrev manager : DeviceManager
manager = record {
  connected = some phone;
  wda_session_id = "";
  wda_url = local_wda_url;
  mode = degraded;
  port_forwarder = none;
  wda_process = none;
}

manager-IsCoherent : IsCoherent manager
manager-IsCoherent = record {
  at_rest = λ e. cc;
  mode_set = λ _ e. cc;
  url_set = λ _. refl;
  session_full = λ h. absurd (h refl);
}

abbrev world : World
world = record { ready = true; next = 1; closed = [] }
