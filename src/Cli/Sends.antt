-- ===== src/Cli/Sends.antt =====
-- Every request of the command line is for a method that the daemon handles (internal/cli).
use ios_pilot.Base.{ℕ, String, ◌≡◌, refl, ap, ◌∙◌, none, some, List, [], ◌∷◌, ◌==◌, ◌&&◌, ◌||◌}
use ios_pilot.Base.Int.{ℤ}
use ios_pilot.Errors.{Result, ok, err}
use ios_pilot.Client.{ClientResponse, call}
use ios_pilot.Lifecycle.{read_pid, is_running}
use ios_pilot.Daemon.{Env}
use ios_pilot.Daemon.Server.{find_handler, register_handlers}
use ios_pilot.Cli.{
  Shell, Command, Console, json, leave, new_client, ensure_daemon, config_dir, pid_path,
}
use ios_pilot.Cli.Commands.{is_help, carry_out}
use ios_pilot.Cli.Control.{
  status_connected, status_of, status_running, cmd_daemon_status, cmd_daemon_stop, cmd_daemon,
  pid_or_zero, stop_found, stop_signalled, sigterm,
}
use ios_pilot.Cli.Agent.{TunnelPackage, Event}
use ios_pilot.Cli.Run.{command, run, is_serve}
use ios_pilot.Cli.Alike.{
  if_alike, same_act, same_app, same_check, same_device, same_look, same_wda, same_log,
}
use ios_pilot.Cli.Guarded.{guarded, same_call, same_ensure}

module _ {V W : Type 0} (env : Env V) (sh : Shell W) where
  abbrev gsh : Shell W
  gsh = guarded env sh

  same_status_of : (pid : ℤ) (r : Result ClientResponse) → status_of gsh pid r ≡ status_of sh pid r
  unfolding status_of
  same_status_of pid (err e) = refl
  same_status_of pid (ok resp) = refl

  same_status_connected :
      (pid : ℤ) (r : Result (Unit {0})) (t : Console W)
      → status_connected gsh pid r t ≡ status_connected sh pid r t
  unfolding status_connected status_of find_handler register_handlers
  same_status_connected pid (err e) t = refl
  same_status_connected pid (ok _) t =
      let (r, c, w) = call sh.conn "daemon.status" (ok none) new_client t.world in
      ap (λ p. leave 0 (json (status_of gsh pid p.0)) (record t { world = sh.hang_up p.2 }))
        (same_call env sh.conn "daemon.status" none new_client t.world refl)
      ∙ ap (λ j. leave 0 (json j) (record t { world = sh.hang_up w })) (same_status_of pid r)

  same_status_running : (t : Console W) → status_running gsh t ≡ status_running sh t
  unfolding status_running config_dir
  same_status_running t =
      let (p, w₁) = read_pid sh.os (pid_path sh) t.world in
      let (r, w₂) = ensure_daemon sh w₁ in
      ap (λ q. status_connected gsh (pid_or_zero p) q.0 (record t { world = q.1 }))
        (same_ensure env sh w₁)
      ∙ same_status_connected (pid_or_zero p) r (record t { world = w₂ })

  same_status : (t : Console W) → cmd_daemon_status gsh t ≡ cmd_daemon_status sh t
  unfolding cmd_daemon_status config_dir
  same_status t =
      let (running, w) = is_running sh.os (pid_path sh) t.world in
      if_alike running (same_status_running (record t { world = w })) refl

  same_signalled :
      (pid : ℤ) (r : Result (Unit {0})) (t : Console W)
      → stop_signalled gsh pid r t ≡ stop_signalled sh pid r t
  unfolding stop_signalled config_dir
  same_signalled pid (ok _) t = refl
  same_signalled pid (err e) t = refl

  same_found : (r : Result ℤ) (t : Console W) → stop_found gsh r t ≡ stop_found sh r t
  unfolding stop_found
  same_found (err e) t = refl
  same_found (ok pid) t =
      let (r, w) = sh.os.kill pid sigterm t.world in same_signalled pid r (record t { world = w })

  same_stop : (t : Console W) → cmd_daemon_stop gsh t ≡ cmd_daemon_stop sh t
  unfolding cmd_daemon_stop config_dir
  same_stop t =
      let (r, w) = read_pid sh.os (pid_path sh) t.world in same_found r (record t { world = w })

  same_daemon : (args : List String) (t : Console W) → cmd_daemon gsh args t ≡ cmd_daemon sh args t
  unfolding cmd_daemon carry_out
  same_daemon [] t = refl
  same_daemon (a ∷ args) t =
      if_alike (is_help a) refl
        (if_alike (a == "status") (same_status t) (if_alike (a == "stop") (same_stop t) refl))

  module _ (serve : Command W) (pkg : TunnelPackage W) (events : List Event) where
    same_command :
        (rounds : ℕ) (a : String) (args : List String) (t : Console W)
        → command gsh serve pkg events rounds a args t ≡ command sh serve pkg events rounds a args t
    unfolding command
    same_command rounds a args t = if_alike (a == "device") (ap some (same_device env sh args t)) (
        if_alike (a == "look") (ap some (same_look env sh args t)) (
          if_alike (a == "act") (ap some (same_act env sh args t)) (
            if_alike (a == "app") (ap some (same_app env sh args t)) (
              if_alike (a == "log") (same_log env sh rounds args t) (
                if_alike (a == "check") (ap some (same_check env sh args t)) (
                  if_alike (a == "wda") (ap some (same_wda env sh args t))
                    (if_alike (a == "daemon") (ap some (same_daemon args t)) refl)))))))

    -- Every request that the command line sends, whatever its arguments and the answers are, is for a
    -- method that the daemon has a handler for: over a connection that fails on any other request
    -- without sending it, each command does and prints the same, `log --follow` in any number of
    -- rounds.
    pub requests_are_handled :
        (rounds : ℕ) (args : List String) (t : Console W)
        → run (guarded env sh) serve pkg events rounds args t
          ≡ run sh serve pkg events rounds args t
    unfolding run
    requests_are_handled rounds [] t = refl
    requests_are_handled rounds (a ∷ args) t =
        if_alike (a == "-help" || a == "--help" || a == "help") refl (
          if_alike (a == "--version" || a == "-version" || a == "version") refl
            (if_alike (a == "daemon" && is_serve args) refl (same_command rounds a args t)))
