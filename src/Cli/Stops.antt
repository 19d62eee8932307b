-- ===== src/Cli/Stops.antt =====
-- Stopping the daemon by the PID file that it wrote (internal/cli/daemon_cmd.go,
-- internal/daemon/lifecycle.go).
use ios_pilot.Base.{ℕ, String, ◌≡◌, ◌∙◌, refl, true, List, [], ◌∷◌}
use ios_pilot.Base.Int.{ℤ}
use ios_pilot.Base.Text.{concat, itoa}
use ios_pilot.Base.Decimal.{in_range}
use ios_pilot.Errors.{error_text, Result, ok, err}
use ios_pilot.Lifecycle.{Os, write_pid_file, read_pid}
use ios_pilot.Lifecycle.Pid.{KeepsFile, read_pid-write_pid_file}
use ios_pilot.Cli.{Output, complaint, Shell, pid_path}
use ios_pilot.Cli.Control.{sigterm, stop_signalled, stop_found, cmd_daemon_stop}

module _ {W : Type 0} (sh : Shell W) where
  -- the operating system as the process of this number sees it
  abbrev pub seen_by : ℤ → Os W
  seen_by pid = record sh.os { pid = pid }

  found :
      (path_read : Result ℤ × W) (pid : ℤ) (w : W) (os : List Output)
      → path_read ≡ (ok pid, w)
      → stop_found sh path_read.0 (record { world = path_read.1; out = os })
        ≡ stop_signalled sh pid
            (sh.os.kill pid sigterm w).0
            (record { world = (sh.os.kill pid sigterm w).1; out = os })
  unfolding stop_found
  found r pid w os e = rw e refl

  -- the exit code, the line on the standard error and the world after a signal
  abbrev pub stopped : ℤ → Result (Unit {0}) → W → ℕ × String × W
  stopped pid (ok _) w = (0, concat ("sent SIGTERM to daemon (PID " ∷ itoa pid ∷ ")" ∷ []), w)
  stopped pid (err e) w = (
    1,
    concat ("error: send SIGTERM to PID " ∷ itoa pid ∷ ": " ∷ error_text e ∷ []),
    sh.os.remove (pid_path sh) w,
  )

  reported :
      (pid : ℤ) (r : Result (Unit {0})) (w : W) (os : List Output)
      → let (code, line, w') = stopped pid r w in
        stop_signalled sh pid r (record { world = w; out = os })
        ≡ (code, record { world = w'; out = complaint line ∷ os })
  unfolding stop_signalled
  reported pid (ok _) w os = refl
  reported pid (err e) w os = refl

  -- `daemon stop` sends SIGTERM to the process that wrote the PID file. Where the signal is sent it
  -- prints so and leaves with the code 0, and the file is left to the daemon; where it fails it
  -- prints the error, removes the file and leaves with the code 1. The number of the process is in the
  -- range of `int`.
  pub cmd_daemon_stop_signals :
      (pid : ℤ) (w w' : W) (os : List Output)
      → KeepsFile (seen_by pid) (pid_path sh)
      → in_range pid ≡ true
      → write_pid_file (seen_by pid) (pid_path sh) w ≡ (ok tt, w')
      → let (r, w'') = sh.os.kill pid 15 w' in
        let (code, line, after) = stopped pid r w'' in
        cmd_daemon_stop sh (record { world = w'; out = os })
        ≡ (code, record { world = after; out = complaint line ∷ os })
  unfolding cmd_daemon_stop
  cmd_daemon_stop_signals pid w w' os keeps fits written =
      let (read, running) =
        read_pid-write_pid_file (seen_by pid) (pid_path sh) w w' keeps fits written in
      let (r, w'') = sh.os.kill pid sigterm w' in
      found (read_pid sh.os (pid_path sh) w') pid w' os read ∙ reported pid r w'' os
