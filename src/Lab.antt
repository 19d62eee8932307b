-- ===== src/Lab.antt =====
-- A small simulated laboratory for tests: one phone, whose drivers answer as the fields of the world
-- say, and a record of the handles that were closed.
use ios_pilot.Base.{
  ◌≡◌, arith, nat_eq, ◌||◌, ℕ, ◌+◌, String, Bool, true, false, some, List, [], ◌∷◌, ◌==◌,
  if◌then◌else◌,
}
use ios_pilot.Base.Int.{pos}
use ios_pilot.Errors.{errorf, ok, err, Call}
use ios_pilot.Driver.{
  DeviceInfo, WdaElement, DeviceDriver, AppDriver, CrashDriver, ScreenshotDriver, TunnelDriver,
  WdaDriver, WdaProcessDriver,
}
use ios_pilot.Screen.Raster.{Image}
use ios_pilot.Screen.Capture.{Host}
use ios_pilot.Device.{Drivers, Sys, new_device_manager}

-- `ready`: WDA answers; `next`: the number of the next handle; `closed`: the closed handles.
pub record World : Type 0 where
  pub ready : Bool
  pub next : ℕ
  pub closed : List ℕ

abbrev pub phone : DeviceInfo
phone = record { udid = "A1"; name = "Phone"; ios_version = "17.4"; product_type = "iPhone15,2" }

abbrev done : {A : Type 0} → A → Call World A
done a w = (ok a, w)

abbrev failing : {A : Type 0} → String → Call World A
failing s w = (err (errorf s), w)

-- a new handle
abbrev handle : Call World ℕ
handle w = (ok w.next, record w { next = w.next + 1 })

-- what needs a running WDA
abbrev by_wda : {A : Type 0} → A → Call World A
by_wda a w = if w.ready then (ok a, w) else (err (errorf "connection refused"), w)

abbrev pub device_driver : DeviceDriver World
device_driver = record {
  list_devices = done (phone ∷ []);
  get_device = λ udid. if udid == "A1" then done phone else failing "device not found";
}

abbrev pub tunnel_driver : TunnelDriver World
tunnel_driver = record {
  ensure_tunnel = λ _. failing "no tunnel";
  is_tunnel_running = λ _ w. (false, w);
  stop_tunnel = λ _. done tt;
  forward_port = λ _ _ _. handle;
}

abbrev pub button : WdaElement
button = record {
  kind = "button";
  label = "Log In";
  frame = (pos 10, pos 20, pos 100, pos 40);
  center = (pos 60, pos 40);
}

abbrev pub wda_driver : WdaDriver World
wda_driver = record {
  create_session = λ _. by_wda "S1";
  status = λ _. by_wda true;
  delete_session = λ _ _. by_wda tt;
  get_element_tree = λ _ _. by_wda (button ∷ []);
  get_interactive_elements = λ _ _ _. by_wda (button ∷ []);
  find_element = λ _ _ _ _. by_wda button;
  tap = λ _ _ _ _. by_wda tt;
  swipe = λ _ _ _ _ _ _. by_wda tt;
  input_text = λ _ _ _. by_wda tt;
  press_button = λ _ _ _. by_wda tt;
  screenshot = λ _ _. by_wda (137 ∷ 80 ∷ 78 ∷ 71 ∷ []);
  launch_app = λ _ _ _. by_wda tt;
  kill_app = λ _ _ _. by_wda tt;
}

-- launching makes WDA answer
abbrev pub wda_process_driver : WdaProcessDriver World
wda_process_driver = record {
  start_wda = λ _ w. (ok w.next, record { ready = true; next = w.next + 1; closed = w.closed });
}

abbrev pub drivers : Drivers World
drivers = record {
  device_driver = device_driver;
  tunnel_driver = some tunnel_driver;
  wda_driver = some wda_driver;
  wda_process_driver = some wda_process_driver;
  close = λ h w. (ok tt, record w { closed = h ∷ w.closed });
}

-- instruments do not work without a developer image
abbrev pub app_driver : AppDriver World
app_driver = record {
  list_apps = λ _. done (record { bundle_id = "com.shop"; name = "Shop"; version = "2.0" } ∷ []);
  install = λ _ _. failing "install failed";
  uninstall = λ _ _. done tt;
  launch = λ _ _. failing "no developer image";
  kill = λ _ _. failing "no developer image";
  foreground_app = λ _. done "com.shop";
}

abbrev pub crash_driver : CrashDriver World
crash_driver = record { list_crashes = λ _. done []; get_crash = λ _ _. failing "no such report" }

abbrev pub screenshot_driver : ScreenshotDriver World
screenshot_driver = record { take_screenshot = λ _. failing "no developer image" }

-- a manager that was just made, WDA not running
abbrev pub fresh : Sys World
fresh = record {
  manager = new_device_manager;
  world = record { ready = false; next = 1; closed = [] };
}

abbrev pub canvas : Image
canvas = record {
  max_x = pos 390;
  max_y = pos 844;
  pixel = λ _ _. record { r = 0; g = 0; b = 0; a = 255 };
}

-- a host whose screenshots decode to one canvas, and which cannot encode
abbrev pub host : Host World
host = record {
  mkdir_all = λ _ w. (ok tt, w);
  write_file = λ _ _ w. (ok tt, w);
  now = λ w. (pos 7, w);
  decode_png = λ _. ok canvas;
  encode_png = λ _. ok (137 ∷ 80 ∷ 78 ∷ 71 ∷ []);
  decode_base64 = λ bs. ok bs;
  draw_label = λ img _ _ _. img;
}

-- the handle was closed
abbrev pub has : ℕ → List ℕ → Bool
has h [] = false
has h (k ∷ ks) = nat_eq h k || has h ks

abbrev pub IsClosed : ℕ → World → Type 0
IsClosed h w = has h w.closed ≡ true

pub closes : (h : ℕ) (w : World) → IsClosed h (drivers.close h w).1
closes h w = ground arith

pub stays : (h k : ℕ) (w : World) → IsClosed h w → IsClosed h (drivers.close k w).1
stays h k w c = ground arith
