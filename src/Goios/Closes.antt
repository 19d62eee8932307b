-- ===== src/Goios/Closes.antt =====
-- What the drivers open they close (internal/driver/goios/app.go and screenshot.go).
use ios_pilot.Base.{ℕ, ◌≡◌, refl, String, Option, none, some, List, Bool-cases, inl, inr}
use ios_pilot.Errors.{Call, and_then}
use ios_pilot.Goios.{Library, AppProcess, InfoProcess, call_in}
use ios_pilot.Goios.Device as Device
use ios_pilot.Goios.App.{
  list_apps, uninstall, launch, launch_via_app_service, launch_via_instruments, either_way, kill,
  kill_via_app_service, kill_via_instruments, kill_service_process, kill_info_process,
  foreground_app, foreground_via_app_service, foreground_via_instruments, executable_of, name_of,
  find_first, service_match, info_match, is_user_app, in_bundles,
}
use ios_pilot.Goios.Connections.{
  Keeps, Counts, call_in-Keeps, or_else-count, using-Keeps, and_then-Keeps, pure-Keeps,
  with_device-Keeps,
}

module _ {E W : Type 0} (lib : Library E W) (count : W → ℕ) (counts : Counts lib count) where
  module _ (quote base : String → String) where
    list_apps-Keeps : (udid : String) → Keeps count (list_apps lib quote base udid)
    unfolding list_apps
    list_apps-Keeps udid = with_device-Keeps lib count counts "list apps: get device" udid _ λ e.
        using-Keeps lib count counts "list apps: installationproxy" (lib.installation_proxy e) _
          (counts.proxy e)
          λ c.
            and_then-Keeps lib count counts (call_in "list apps: browse" (lib.browse_user_apps c)) _
              (call_in-Keeps lib count counts "list apps: browse" (lib.browse_user_apps c)
                (counts.browse c))
              λ raw. pure-Keeps lib count counts _

    uninstall-Keeps : (udid id : String) → Keeps count (uninstall lib quote base udid id)
    unfolding uninstall
    uninstall-Keeps udid id = with_device-Keeps lib count counts "uninstall: get device" udid _ λ e.
        using-Keeps lib count counts "uninstall: installationproxy" (lib.installation_proxy e) _
          (counts.proxy e)
          λ c. call_in-Keeps lib count counts _ (lib.uninstall_bundle c id) (counts.uninstall c id)

    either_way-Keeps :
        {A : Type 0} (service instruments : E → Call W A) (e : E)
        → Keeps count (service e)
        → Keeps count (instruments e)
        → Keeps count (either_way lib quote base service instruments e)
    unfolding either_way
    either_way-Keeps service instruments e s i = elim (Bool-cases (lib.supports_rsd e)) [
      | inl rsd ↦ record {
        same = λ w.
            rw rsd
              (or_else-count lib count counts (service e w) (instruments e) (count w) (s.same w) i);
      }
      | inr old ↦ record { same = λ w. rw old (i.same w) }
    ]

    launch_service-Keeps :
        (id : String) (e : E) → Keeps count (launch_via_app_service lib quote base e id)
    unfolding launch_via_app_service
    launch_service-Keeps id e =
        using-Keeps lib count counts "appservice" (lib.app_service e) _ (counts.service e) λ c.
          call_in-Keeps lib count counts _ (lib.service_launch c id) (counts.service_launch c id)

    launch_instruments-Keeps :
        (id : String) (e : E) → Keeps count (launch_via_instruments lib quote base e id)
    unfolding launch_via_instruments
    launch_instruments-Keeps id e =
        using-Keeps lib count counts "process control" (lib.process_control e) _ (counts.control e)
          λ c.
            call_in-Keeps lib count counts _ (lib.control_launch c id) (counts.control_launch c id)

    launch-Keeps : (udid id : String) → Keeps count (launch lib quote base udid id)
    unfolding launch
    launch-Keeps udid id = with_device-Keeps lib count counts "launch: get device" udid _ λ e.
        either_way-Keeps (λ e'. launch_via_app_service lib quote base e' id)
          (λ e'. launch_via_instruments lib quote base e' id) e (launch_service-Keeps id e)
          (launch_instruments-Keeps id e)

    kill_service-Keeps :
        (c : ℕ) (id : String) (p : Option AppProcess)
        → Keeps count (kill_service_process lib quote base c id p)
    unfolding kill_service_process
    kill_service-Keeps c id none = record { same = λ w. refl }
    kill_service-Keeps c id (some p) =
        call_in-Keeps lib count counts _ (lib.service_kill c p.pid) (counts.service_kill c p.pid)

    kill_info-Keeps :
        (c : ℕ) (id : String) (p : Option InfoProcess)
        → Keeps count (kill_info_process lib quote base c id p)
    unfolding kill_info_process
    kill_info-Keeps c id none = record { same = λ w. refl }
    kill_info-Keeps c id (some p) =
        call_in-Keeps lib count counts _ (lib.control_kill c p.pid) (counts.control_kill c p.pid)

    -- what is done with the processes
    processes-Keeps :
        {A : Type 0} (c : ℕ) (next : List AppProcess → Call W A)
        → ((ps : List AppProcess) → Keeps count (next ps))
        → Keeps count (λ w. and_then (call_in "list processes" (lib.service_processes c) w) next)
    processes-Keeps c next k =
        and_then-Keeps lib count counts (call_in "list processes" (lib.service_processes c)) next
          (call_in-Keeps lib count counts "list processes" (lib.service_processes c)
            (counts.service_processes c))
          k

    process_list-Keeps :
        {A : Type 0} (c : ℕ) (next : List InfoProcess → Call W A)
        → ((ps : List InfoProcess) → Keeps count (next ps))
        → Keeps count (λ w. and_then (call_in "process list" (lib.process_list c) w) next)
    process_list-Keeps c next k =
        and_then-Keeps lib count counts (call_in "process list" (lib.process_list c)) next
          (call_in-Keeps lib count counts "process list" (lib.process_list c)
            (counts.process_list c))
          k

    kill_by_service-Keeps :
        (id : String) (e : E) → Keeps count (kill_via_app_service lib quote base e id)
    unfolding kill_via_app_service
    kill_by_service-Keeps id e =
        using-Keeps lib count counts "appservice" (lib.app_service e) _ (counts.service e)
          λ c. processes-Keeps c _ λ ps. kill_service-Keeps c id (find_first (service_match id) ps)

    kill_by_instruments-Keeps :
        (id : String) (e : E) → Keeps count (kill_via_instruments lib quote base e id)
    unfolding kill_via_instruments
    kill_by_instruments-Keeps id e =
        using-Keeps lib count counts "device info service" (lib.device_info_service e) _
          (counts.info e)
          λ c. process_list-Keeps c _ λ ps.
            using-Keeps lib count counts "process control" (lib.process_control e) _
              (counts.control e) λ d. kill_info-Keeps d id (find_first (info_match id) ps)

    kill-Keeps : (udid id : String) → Keeps count (kill lib quote base udid id)
    unfolding kill
    kill-Keeps udid id = with_device-Keeps lib count counts "kill: get device" udid _ λ e.
        either_way-Keeps (λ e'. kill_via_app_service lib quote base e' id)
          (λ e'. kill_via_instruments lib quote base e' id) e (kill_by_service-Keeps id e)
          (kill_by_instruments-Keeps id e)

    foreground_service-Keeps : (e : E) → Keeps count (foreground_via_app_service lib quote base e)
    unfolding foreground_via_app_service
    foreground_service-Keeps e =
        using-Keeps lib count counts "appservice" (lib.app_service e) _ (counts.service e) λ c.
          processes-Keeps c _ λ ps.
            pure-Keeps lib count counts (executable_of lib quote base (find_first is_user_app ps))

    foreground_instruments-Keeps :
        (e : E) → Keeps count (foreground_via_instruments lib quote base e)
    unfolding foreground_via_instruments
    foreground_instruments-Keeps e =
        using-Keeps lib count counts "device info service" (lib.device_info_service e) _
          (counts.info e)
          λ c. process_list-Keeps c _ λ ps. pure-Keeps lib count counts (
            name_of lib quote base
              (find_first (λ (p : InfoProcess). in_bundles p.real_app_name) ps))

    foreground_app-Keeps : (udid : String) → Keeps count (foreground_app lib quote base udid)
    unfolding foreground_app
    foreground_app-Keeps udid =
        with_device-Keeps lib count counts "foreground app: get device" udid _ λ e.
          either_way-Keeps (foreground_via_app_service lib quote base)
            (foreground_via_instruments lib quote base) e (foreground_service-Keeps e)
            (foreground_instruments-Keeps e)

    screenshot-Keeps : (udid : String) → Keeps count (Device.take_screenshot lib quote udid)
    unfolding Device.take_screenshot
    screenshot-Keeps udid = with_device-Keeps lib count counts "screenshot: get device" udid _ λ e.
        using-Keeps lib count counts "screenshot: connect to screenshot service"
          (lib.screenshot_service e) _ (counts.shots e)
          λ c.
            call_in-Keeps lib count counts "screenshot: take screenshot" (lib.screenshot c)
              (counts.shot c)

    -- Whatever is called, and whether it fails or not, the application driver and the screenshot driver
    -- leave as many connections open as there were before: all but `Install` close what they open.
    pub drivers_close :
        (udid id : String) (w : W)
        → (count (list_apps lib quote base udid w).1 ≡ count w)
          × (count (uninstall lib quote base udid id w).1 ≡ count w)
          × (count (launch lib quote base udid id w).1 ≡ count w)
          × (count (kill lib quote base udid id w).1 ≡ count w)
          × (count (foreground_app lib quote base udid w).1 ≡ count w)
          × (count (Device.take_screenshot lib quote udid w).1 ≡ count w)
    drivers_close udid id w = (
      (list_apps-Keeps udid).same w,
      (uninstall-Keeps udid id).same w,
      (launch-Keeps udid id).same w,
      (kill-Keeps udid id).same w,
      (foreground_app-Keeps udid).same w,
      (screenshot-Keeps udid).same w,
    )
