-- ===== src/Cli/Control.antt =====
-- `ios-pilot daemon` (internal/cli/daemon_cmd.go): the status of the daemon, and stopping it.
use ios_pilot.Base.{ℕ, String, Option, none, some, List, [], ◌∷◌, ◌==◌, if◌then◌else◌}
use ios_pilot.Base.Int.{ℤ, pos}
use ios_pilot.Base.Text.{concat, itoa}
use ios_pilot.Errors.{error_text, Result, ok, err}
use ios_pilot.Json.{Json, num, str, obj, Fields, end, field}
use ios_pilot.Client.{ClientResponse, call}
use ios_pilot.Lifecycle.{read_pid, is_running, remove_pid_file}
use ios_pilot.Cli.{
  usage, complaint, json, Shell, Command, leave, new_client, ensure_daemon, pid_path,
}
use ios_pilot.Cli.Commands.{is_help, unknown, carry_out}

abbrev pub sigterm : ℕ
sigterm = 15

-- what `printJSON` gets where the daemon gives no status, with the keys in order
abbrev pub running_note : ℤ → String → Option Json
running_note pid note =
    some
      (obj (field "note" (str note) (field "pid" (num pid) (field "status" (str "running") end))))

-- `m["pid"] = pid`: the entry of that key is replaced, or a new one is made
unfoldable pub set_pid : ℤ → Fields → Fields
set_pid pid end = field "pid" (num pid) end
set_pid pid (field key v fs) =
    let rest = set_pid pid fs in if key == "pid" then rest else field key v rest

abbrev pub with_pid : ℤ → Option Json → Option Json
with_pid pid (some (obj fs)) = some (obj (set_pid pid fs))
with_pid pid j = j

-- the number that `pid, _ := ReadPID(...)` gives
abbrev pub pid_or_zero : Result ℤ → ℤ
pid_or_zero (ok pid) = pid
pid_or_zero (err e) = pos 0

module _ {W : Type 0} (sh : Shell W) where
  unfoldable pub status_of : ℤ → Result ClientResponse → Option Json
  unfolding set_pid
  status_of pid (err e) =
      running_note pid (concat ("connected but status call failed: " ∷ error_text e ∷ []))
  status_of pid (ok resp) = elim resp.error [
    | some e ↦ running_note pid e.message
    | none ↦ with_pid pid resp.result
  ]

  -- after `ensureDaemon`
  unfoldable pub status_connected : ℤ → Result (Unit {0}) → Command W
  unfolding status_of
  status_connected pid (err e) t =
      leave 0 (json (running_note pid "daemon running but not responding")) t
  status_connected pid (ok _) t =
      let (r, c, w) = call sh.conn "daemon.status" (ok none) new_client t.world in
      leave 0 (json (status_of pid r)) (record t { world = sh.hang_up w })

  -- where the process of the PID file runs: the file is read again
  unfoldable pub status_running : Command W
  unfolding status_connected read_pid ensure_daemon
  status_running t =
      let (p, w₁) = read_pid sh.os (pid_path sh) t.world in
      let (r, w₂) = ensure_daemon sh w₁ in
      status_connected (pid_or_zero p) r (record t { world = w₂ })

  unfoldable pub cmd_daemon_status : Command W
  unfolding status_running is_running
  cmd_daemon_status t =
      let (running, w) = is_running sh.os (pid_path sh) t.world in
      let t' = record t { world = w } in
      if running
      then status_running t'
      else leave 0 (json (some (obj (field "status" (str "stopped") end)))) t'

  -- after the signal is sent
  unfoldable pub stop_signalled : ℤ → Result (Unit {0}) → Command W
  stop_signalled pid (ok _) t =
      leave 0 (complaint (concat ("sent SIGTERM to daemon (PID " ∷ itoa pid ∷ ")" ∷ []))) t
  stop_signalled pid (err e) t =
      let (code, t') =
        leave 1
          (complaint (concat ("error: send SIGTERM to PID " ∷ itoa pid ∷ ": " ∷ error_text e ∷ [])))
          t in
      (code, record t' { world = remove_pid_file sh.os (pid_path sh) t'.world })

  unfoldable pub stop_found : Result ℤ → Command W
  unfolding stop_signalled
  stop_found (err e) t = leave 0 (complaint "daemon is not running (no PID file)") t
  stop_found (ok pid) t =
      let (r, w) = sh.os.kill pid sigterm t.world in stop_signalled pid r (record t { world = w })

  unfoldable pub cmd_daemon_stop : Command W
  unfolding stop_found read_pid
  cmd_daemon_stop t =
      let (r, w) = read_pid sh.os (pid_path sh) t.world in stop_found r (record t { world = w })

  unfoldable pub cmd_daemon : List String → Command W
  unfolding cmd_daemon_status cmd_daemon_stop carry_out
  cmd_daemon [] t = leave 0 (usage "daemon") t
  cmd_daemon (a ∷ args) t =
      if is_help a
      then leave 0 (usage "daemon") t
      else if a == "status"
      then cmd_daemon_status t
      else if a == "stop"
      then cmd_daemon_stop t
      else carry_out sh (unknown sh.os.quote "daemon" "subcommand" a) t
