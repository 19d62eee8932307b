-- ===== src/Daemon/Reports.antt =====
-- The handlers of logs, of crash reports and of checks (internal/daemon/state.go, lines 243 to 322).
use ios_pilot.Base.{zero, suc, String, Option, none, some}
use ios_pilot.Base.Int.{ℤ, pos, negsuc}
use ios_pilot.Errors.{Result, ok, Call}
use ios_pilot.Logs.Manager.{LogFilter, get_logs, list_crashes, get_crash}
use ios_pilot.Checks as Checks
use ios_pilot.Screen.Capture.{take_screenshot}
use ios_pilot.Daemon.{
  Env, State, Reply, log_entries, crashes, crash, check_result, Outcome, Handler, reply, replying,
}
use ios_pilot.Daemon.Params.{assign_log, no_log, lenient}
use ios_pilot.Daemon.Handlers.{strict_text}

-- `if p.N <= 0 { p.N = 50 }`
abbrev pub wanted : ℤ → ℤ
wanted (pos zero) = pos 50
wanted (pos (suc n)) = pos (suc n)
wanted (negsuc n) = pos 50

-- the end of a handler of crash reports
unfoldable pub crash_reply :
    {W A : Type 0} → (A → Reply) → Option (Result A × W) → State W → Outcome W
unfolding reply
crash_reply f none s = none
crash_reply f (some (r, w)) s = reply f r (record s { world = w })

module _ {W : Type 0} (env : Env W) where
  unfoldable pub handle_log : Handler W
  unfolding lenient
  handle_log params s =
      let p = lenient assign_log params no_log in
      let f : LogFilter = record { bundle_id = p.filter; level = p.level; search = p.search } in
      elim (get_logs (wanted p.n) f s.log_manager) [
        | none ↦ none
        | some es ↦ some (ok (log_entries es), s)
      ]

  unfoldable pub handle_crash_list : Handler W
  unfolding crash_reply
  handle_crash_list params s =
      crash_reply crashes (list_crashes env.crash_driver s.log_manager s.world) s

  unfoldable pub handle_crash_get : Handler W
  unfolding strict_text crash_reply
  handle_crash_get params s =
      strict_text "id" params
        (λ id s'. crash_reply crash (get_crash env.crash_driver s'.log_manager id s'.world) s') s

  -- `ScreenCapture` as the checker uses it
  abbrev shots : State W → Option (Call W String)
  shots s = some (
      take_screenshot env.host env.screenshot_driver (some env.wda_client) env.config
        s.device_manager)

  unfoldable pub handle_check_screen : Handler W
  unfolding replying
  handle_check_screen params s =
      replying check_result
        (Checks.screen (shots s) (some env.wda_client) (some env.app_driver) env.crash_driver
          env.fold)
        s

  unfoldable pub check_element : String → State W → Outcome W
  unfolding replying
  check_element text s =
      replying check_result
        (Checks.element (shots s) (some env.wda_client) (some env.app_driver) env.crash_driver
          env.fold text s.device_manager)
        s

  unfoldable pub handle_check_element : Handler W
  unfolding strict_text check_element
  handle_check_element params s = strict_text "text" params check_element s

  unfoldable pub check_app_running : String → State W → Outcome W
  unfolding replying
  check_app_running bundle_id s =
      replying check_result
        (Checks.app_running (shots s) (some env.wda_client) (some env.app_driver) env.crash_driver
          env.fold bundle_id s.device_manager)
        s

  unfoldable pub handle_check_app_running : Handler W
  unfolding strict_text check_app_running
  handle_check_app_running params s = strict_text "bundle_id" params check_app_running s

  unfoldable pub check_no_crash : String → State W → Outcome W
  unfolding replying
  check_no_crash bundle_id s =
      replying check_result
        (Checks.no_crash (shots s) (some env.wda_client) (some env.app_driver) env.crash_driver
          env.fold bundle_id s.device_manager)
        s

  unfoldable pub handle_check_no_crash : Handler W
  unfolding strict_text check_no_crash
  handle_check_no_crash params s = strict_text "bundle_id" params check_no_crash s
