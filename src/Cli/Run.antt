-- ===== src/Cli/Run.antt =====
-- `Run` (internal/cli/root.go): the first argument chooses the command. What runs the
-- daemon in the process (`runDaemonServe`, in Lifecycle.Serve) is a parameter; `events` is what the
-- tunnel agent meets.
use ios_pilot.Base.{
  ℕ, String, Bool, false, ◌&&◌, ◌||◌, Option, some, List, [], ◌∷◌, ◌==◌, if◌then◌else◌,
}
use ios_pilot.Base.Text.{concat}
use ios_pilot.Cli.{usage, version, complaint, Console, Shell, Command, print, leave}
use ios_pilot.Cli.Commands.{cmd_act, cmd_app, cmd_check, cmd_device, cmd_look, cmd_wda}
use ios_pilot.Cli.Agent.{TunnelPackage, Event, cmd_tunnel}
use ios_pilot.Cli.Log.{cmd_log}
use ios_pilot.Cli.Control.{cmd_daemon}

abbrev pub is_serve : List String → Bool
is_serve [] = false
is_serve (a ∷ _) = a == "serve"

module _ {W : Type 0} (sh : Shell W) (serve : Command W) (pkg : TunnelPackage W)
    (events : List Event) where
  -- the switch; `rounds` bounds the rounds of `log --follow`
  unfoldable pub command : ℕ → String → List String → Console W → Option (ℕ × Console W)
  unfolding cmd_act cmd_app cmd_check cmd_device cmd_look cmd_wda cmd_log cmd_daemon cmd_tunnel
  command rounds a args t =
      if a == "device"
      then some (cmd_device sh args t)
      else if a == "look"
      then some (cmd_look sh args t)
      else if a == "act"
      then some (cmd_act sh args t)
      else if a == "app"
      then some (cmd_app sh args t)
      else if a == "log"
      then cmd_log sh rounds args t
      else if a == "check"
      then some (cmd_check sh args t)
      else if a == "wda"
      then some (cmd_wda sh args t)
      else if a == "daemon"
      then some (cmd_daemon sh args t)
      else if a == "tunnel"
      then cmd_tunnel pkg events args t
      else some (
          leave 1 (usage "")
            (print (complaint (concat ("ios-pilot: unknown command " ∷ sh.os.quote a ∷ []))) t))

  unfoldable pub run : ℕ → List String → Console W → Option (ℕ × Console W)
  unfolding command
  run rounds [] t = some (leave 0 (usage "") t)
  run rounds (a ∷ args) t =
      if a == "-help" || a == "--help" || a == "help"
      then some (leave 0 (usage "") t)
      else if a == "--version" || a == "-version" || a == "version"
      then some (leave 0 version t)
      else if a == "daemon" && is_serve args
      then some (serve t)
      else command rounds a args t
