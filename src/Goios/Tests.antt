-- ===== src/Goios/Tests.antt =====
-- A device that is simulated by the numbers of its open connections and of the polls for its tunnel.
use ios_pilot.Base.{ℕ, ◌+◌, ◌-◌, ◌≡◌, refl, String, true, none, some, [], ◌∷◌, ◌==◌}
use ios_pilot.Base.Int.{pos}
use ios_pilot.Errors.{errorf, ok, err, Call}
use ios_pilot.Device.{new_device_manager}
use ios_pilot.Checks.{app_running}
use ios_pilot.Checks.Verdict.{Verdict}
use ios_pilot.Goios.{Library, AppProcess}
use ios_pilot.Goios.App.{app_driver, list_apps, uninstall, launch, kill, foreground_app}
use ios_pilot.Goios.Device as Device
use ios_pilot.Goios.Tunnel.{
  Tunnels, Driver, new_tunnel_driver, ensure_tunnel, is_tunnel_running, stop_tunnel, forward_port,
}
use ios_pilot.Goios.Connections.{Counts}
use ios_pilot.Goios.Closes.{drivers_close}
use ios_pilot.Goios.Foreground.{app_running_compares_executable}
use ios_pilot.Goios.Tunnels.{
  IsCoherent, Returns, Within, operations-IsCoherent, ensure_tunnel_polls,
}

record Phone : Type 0 where
  open_conns : ℕ
  polls : ℕ

abbrev opens : Call Phone ℕ
opens p = (ok 7, record p { open_conns = p.open_conns + 1 })

abbrev gives : {A : Type 0} → A → Call Phone A
gives a p = (ok a, p)

abbrev system : AppProcess
system = record {
  pid = pos 34;
  path = "/Applications/Preferences.app/Preferences";
  executable_name = "Preferences";
}

abbrev shop : AppProcess
shop = record {
  pid = pos 300;
  path = "/private/var/containers/Bundle/Application/1F/Shop.app/Shop";
  executable_name = "Shop";
}

-- the entry of the device is `tt`
abbrev lib : Library (Unit {0}) Phone
lib = record {
  serial = λ _. "A1";
  supports_rsd = λ _. true;
  list_devices = gives (tt ∷ []);
  get_device = λ _. gives tt;
  get_values = λ _ p. (err (errorf "no lockdown"), p);
  close = λ _ p. record p { open_conns = p.open_conns - 1 };
  installation_proxy = λ _. opens;
  browse_user_apps = λ _. gives [];
  browse_all_apps = λ _.
      gives (record { identifier = "com.x.WebDriverAgentRunner"; name = "W"; version = "1" } ∷ []);
  uninstall_bundle = λ _ _. gives tt;
  zip_conduit = λ _. opens;
  send_file = λ _ _. gives tt;
  app_service = λ _. opens;
  service_launch = λ _ _. gives (pos 300);
  service_processes = λ _. gives (system ∷ shop ∷ []);
  service_kill = λ _ _. gives tt;
  process_control = λ _. opens;
  control_launch = λ _ _. gives (pos 300);
  control_kill = λ _ _. gives tt;
  device_info_service = λ _. opens;
  process_list = λ _. gives [];
  screenshot_service = λ _. opens;
  screenshot = λ _. gives [];
  syslog = λ _. opens;
}

abbrev open_conns : Phone → ℕ
open_conns p = p.open_conns

abbrev start : Phone
start = record { open_conns = 0; polls = 0 }

lib-Counts : Counts lib open_conns
lib-Counts = record {
  get_device = λ _. record { same = λ w. refl };
  closes = λ _ w. refl;
  proxy = λ _. record { one = λ w. refl };
  browse = λ _. record { same = λ w. refl };
  uninstall = λ _ _. record { same = λ w. refl };
  conduit = λ _. record { one = λ w. refl };
  send = λ _ _. record { same = λ w. refl };
  service = λ _. record { one = λ w. refl };
  service_launch = λ _ _. record { same = λ w. refl };
  service_processes = λ _. record { same = λ w. refl };
  service_kill = λ _ _. record { same = λ w. refl };
  control = λ _. record { one = λ w. refl };
  control_launch = λ _ _. record { same = λ w. refl };
  control_kill = λ _ _. record { same = λ w. refl };
  info = λ _. record { one = λ w. refl };
  process_list = λ _. record { same = λ w. refl };
  shots = λ _. record { one = λ w. refl };
  shot = λ _. record { same = λ w. refl };
}

abbrev plain : String → String
plain s = s

drivers_close_example :
    (open_conns (list_apps lib plain plain "A1" start).1 ≡ 0)
    × (open_conns (uninstall lib plain plain "A1" "com.shop" start).1 ≡ 0)
    × (open_conns (launch lib plain plain "A1" "com.shop" start).1 ≡ 0)
    × (open_conns (kill lib plain plain "A1" "com.shop" start).1 ≡ 0)
    × (open_conns (foreground_app lib plain plain "A1" start).1 ≡ 0)
    × (open_conns (Device.take_screenshot lib plain "A1" start).1 ≡ 0)
drivers_close_example = drivers_close lib open_conns lib-Counts plain plain "A1" "com.shop" start

abbrev one_open : Phone
one_open = record { open_conns = 1; polls = 0 }

-- the shop is in the foreground, and the check for its identifier does not pass
app_running_compares_executable_example :
    Verdict
      (app_running none none
        (some (app_driver lib plain plain))
        none
        (λ c. c)
        "com.shop"
        new_device_manager
        start).0
      ("Shop" == "com.shop")
app_running_compares_executable_example =
    app_running_compares_executable lib plain plain none none none (λ c. c) "com.shop"
      new_device_manager start start one_open one_open tt 7 (system ∷ []) shop [] refl refl refl
      refl (refl, tt) refl

abbrev tunnels : Tunnels (Unit {0}) Phone
tunnels = record {
  pair_records = gives 1;
  manager = λ _ p. (2, p);
  context = λ p. (3, p);
  update_tunnels = λ _. gives tt;
  spawn = λ _ _ p. p;
  find_tunnel = λ _ _ p. (err (errorf "no tunnel"), record p { polls = p.polls + 1 });
  remove_tunnel = λ _ _. gives tt;
  close_manager = λ _ p. p;
  cancel = λ _ p. p;
  with_tun = λ _ e. e;
  forward = λ _ _ _. gives 9;
  sleep = λ _ p. p;
}

abbrev no_manager : Driver Phone
no_manager = new_tunnel_driver start

operations-IsCoherent_example :
    Returns IsCoherent (ensure_tunnel lib tunnels "A1" no_manager)
    × IsCoherent (is_tunnel_running lib tunnels "A1" no_manager).1
    × IsCoherent (stop_tunnel lib tunnels "A1" no_manager).1
    × IsCoherent (forward_port lib tunnels plain "A1" 8100 8100 no_manager).1
    × IsCoherent (new_tunnel_driver start)
operations-IsCoherent_example =
    operations-IsCoherent lib tunnels plain "A1" 8100 8100 no_manager (record { both = refl })

abbrev polls_of : Phone → ℕ
polls_of p = p.polls

abbrev managed : Driver Phone
managed = record { tm = some 2; cancel = some 3; world = start }

ensure_tunnel_polls_example :
    Returns (Within lib tunnels polls_of (0 + 30)) (ensure_tunnel lib tunnels "A1" managed)
ensure_tunnel_polls_example =
    ensure_tunnel_polls lib tunnels polls_of "A1" managed
      (record { find = λ _ _ w. refl; rest = λ _ w. refl }) refl
