-- ===== src/Goios/Foreground.antt =====
-- The check of the application in the foreground with the driver of go-ios (AppRunning of
-- internal/core/check.go, ForegroundApp of internal/driver/goios/app.go).
use ios_pilot.Base.{ℕ, String, ◌≡◌, refl, true, Option, some, List, ◌∷◌, ◌++◌, ◌==◌}
use ios_pilot.Errors.{ok, Call}
use ios_pilot.Driver.{WdaDriver, CrashDriver}
use ios_pilot.Device.{DeviceManager, connected_udid}
use ios_pilot.Checks.{app_running, report}
use ios_pilot.Checks.Verdict.{Verdict}
use ios_pilot.Goios.{AppProcess, Library, using}
use ios_pilot.Goios.Bundles.{user_path, Others, first_user_app}
use ios_pilot.Goios.App.{
  app_driver, foreground_app, foreground_via_app_service, either_way, find_first, is_user_app,
}

module _ {E W : Type 0} (lib : Library E W) (quote base : String → String)
    (shot : Option (Call W String)) (wda : Option (WdaDriver W)) (crashes : Option (CrashDriver W))
    (fold : ℕ → ℕ) where
  foreground_named :
      (udid : String) (w w₁ w₂ w₃ : W) (entry : E) (conn : ℕ) (ps : List AppProcess)
      (p : AppProcess)
      → lib.get_device udid w ≡ (ok entry, w₁)
      → lib.supports_rsd entry ≡ true
      → lib.app_service entry w₁ ≡ (ok conn, w₂)
      → lib.service_processes conn w₂ ≡ (ok ps, w₃)
      → find_first is_user_app ps ≡ some p
      → foreground_app lib quote base udid w ≡ (ok p.executable_name, lib.close conn w₃)
  unfolding foreground_app either_way foreground_via_app_service using
  foreground_named udid w w₁ w₂ w₃ entry conn ps p found rsd service processes user =
      rw (found, rsd, service, processes, user) refl

  -- On a device with the application service, `check app-running` passes exactly when the text that it
  -- is given for the identifier of a bundle is the name of the executable of the first process whose
  -- path has "/Bundle/Application/" and ".app/" in it, where the calls of the library succeed and there
  -- is such a process.
  pub app_running_compares_executable :
      (bundle_id : String) (dm : DeviceManager) (w w₁ w₂ w₃ : W) (entry : E) (conn : ℕ)
      (before : List AppProcess) (p : AppProcess) (after : List AppProcess)
      → lib.get_device (connected_udid dm) w ≡ (ok entry, w₁)
      → lib.supports_rsd entry ≡ true
      → lib.app_service entry w₁ ≡ (ok conn, w₂)
      → lib.service_processes conn w₂ ≡ (ok (before ++ (p ∷ after)), w₃)
      → Others before
      → user_path p.path ≡ true
      → Verdict
          (app_running shot wda (some (app_driver lib quote base)) crashes fold bundle_id dm w).0
          (p.executable_name == bundle_id)
  unfolding app_running report
  app_running_compares_executable bundle_id dm w w₁ w₂ w₃ entry conn before p after found rsd
        service processes others user =
      rw
        (
          app_running,
          foreground_named (connected_udid dm) w w₁ w₂ w₃ entry conn (before ++ (p ∷ after)) p found
              rsd service processes (first_user_app before p after others user),
        )
        refl
