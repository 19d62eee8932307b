-- ===== src/Cli/Alike.antt =====
-- The commands that make requests for methods with handlers, over a connection that lets only such
-- requests through (internal/cli).
use ios_pilot.Base.{
  ℕ, zero, suc, String, ◌≡◌, refl, ap, ◌∙◌, Bool, true, false, Option, none, some, List, [], ◌∷◌,
  ◌==◌, if◌then◌else◌,
}
use ios_pilot.Base.Text.{concat}
use ios_pilot.Errors.{Result, ok, err}
use ios_pilot.Json.{Json}
use ios_pilot.Client.{Client, ClientResponse, call}
use ios_pilot.Daemon.{Env}
use ios_pilot.Daemon.Server.{find_handler, register_handlers}
use ios_pilot.Cli.{
  complaint, Shell, Console, json, leave, print, new_client, ensure_daemon, with_daemon,
}
use ios_pilot.Cli.Commands.{
  Plan, ask, refuse, any_help, is_help, unknown, carry_out, subcommand, cmd_act, cmd_app, cmd_check,
  cmd_device, cmd_look, cmd_wda,
}
use ios_pilot.Cli.Log.{
  Parsed, LogOptions, options, refused, log_params, poll, polled, run_log, log_connected, cmd_log,
  cmd_log_crash, log_or_crash, crash_args, crash_plan, parse_log, no_options,
}
use ios_pilot.Cli.Log as Log
use ios_pilot.Cli.Methods.{
  has_handler, is_handled, act_handled, app_handled, check_handled, device_handled, look_handled,
  crash_handled,
}
use ios_pilot.Cli.Guarded.{guarded, same_request, same_call, same_ensure, same_with_daemon}

pub if_alike :
    {A : Type 0} (b : Bool) {x x' y y' : A}
    → x ≡ x'
    → y ≡ y'
    → (if b then x else y) ≡ (if b then x' else y')
if_alike true e e' = e
if_alike false e e' = e'

module _ {V W : Type 0} (env : Env V) (sh : Shell W) where
  abbrev gsh : Shell W
  gsh = guarded env sh

  same_carry_out :
      (plan : Plan) (t : Console W)
      → is_handled env plan ≡ true
      → carry_out gsh plan t ≡ carry_out sh plan t
  unfolding carry_out is_handled
  same_carry_out (ask method params) t h = same_request env sh method params t h
  same_carry_out (refuse os) t h = refl

  same_planned :
      (plan : Plan) (t : Console W)
      → is_handled env plan ≡ true
      → with_daemon gsh (carry_out gsh plan) t ≡ with_daemon sh (carry_out sh plan) t
  same_planned plan t h =
      same_with_daemon env sh (carry_out sh plan) (carry_out gsh plan) t
        (λ t'. same_carry_out plan t' h)

  same_subcommand :
      (name : String) (plan : String → List String → Plan) (args : List String) (t : Console W)
      → ((a : String) (rest : List String) → is_handled env (plan a rest) ≡ true)
      → subcommand gsh name plan args t ≡ subcommand sh name plan args t
  unfolding subcommand
  same_subcommand name plan [] t h = refl
  same_subcommand name plan (a ∷ args) t h =
      if_alike (is_help a) refl (same_planned (plan a args) t (h a args))

  pub same_act : (args : List String) (t : Console W) → cmd_act gsh args t ≡ cmd_act sh args t
  unfolding cmd_act
  same_act args t = same_subcommand "act" _ args t (act_handled env sh.os.quote)

  pub same_app : (args : List String) (t : Console W) → cmd_app gsh args t ≡ cmd_app sh args t
  unfolding cmd_app
  same_app args t = same_subcommand "app" _ args t (app_handled env sh.os.quote)

  pub same_check : (args : List String) (t : Console W) → cmd_check gsh args t ≡ cmd_check sh args t
  unfolding cmd_check
  same_check args t = same_subcommand "check" _ args t (check_handled env sh.os.quote)

  pub same_device :
      (args : List String) (t : Console W) → cmd_device gsh args t ≡ cmd_device sh args t
  unfolding cmd_device
  same_device args t = same_subcommand "device" _ args t (device_handled env sh.os.quote)

  pub same_look : (args : List String) (t : Console W) → cmd_look gsh args t ≡ cmd_look sh args t
  unfolding cmd_look
  same_look args t =
      if_alike (any_help args) refl
        (same_planned _ t (look_handled env sh.os.quote args false false))

  pub same_wda : (args : List String) (t : Console W) → cmd_wda gsh args t ≡ cmd_wda sh args t
  unfolding cmd_wda is_handled find_handler register_handlers
  same_wda [] t = refl
  same_wda (a ∷ args) t = if_alike (is_help a) refl (
      if_alike (a == "setup") refl (
        if_alike (a == "status") (same_planned (ask "wda.status" none) t refl) (
          if_alike (a == "restart") (same_planned (ask "wda.restart" none) t refl)
            (same_carry_out (unknown sh.os.quote "wda" "subcommand" a) t refl))))

  log_handled : has_handler env "log" ≡ true
  unfolding find_handler register_handlers
  log_handled = refl

  same_polled :
      (r : Result ClientResponse) (next next' : Client → Console W → Option (ℕ × Console W))
      (c : Client) (t : Console W)
      → ((c' : Client) (t' : Console W) → next' c' t' ≡ next c' t')
      → polled gsh r next' c t ≡ polled sh r next c t
  unfolding polled
  same_polled (err e) next next' c t h = refl
  same_polled (ok resp) next next' c t h =
      let t' = print (json resp.result) t in
      let t'' = record t' { world = sh.sleep 1000 t'.world } in
      ap
        (λ (y : Option (ℕ × Console W)). elim resp.error [
          | some e ↦ some (leave 1 (complaint (concat ("error: " ∷ e.message ∷ []))) t)
          | none ↦ y
        ])
        (h c t'')

  same_poll :
      (rounds : ℕ) (params : Option Json) (c : Client) (t : Console W)
      → poll gsh rounds params c t ≡ poll sh rounds params c t
  unfolding poll
  same_poll zero params c t = refl
  same_poll (suc rounds) params c t =
      let (r, c', w) = call sh.conn "log" (ok params) c t.world in
      ap (λ p. polled gsh p.0 (poll gsh rounds params) p.1 (record t { world = p.2 }))
        (same_call env sh.conn "log" params c t.world log_handled)
      ∙ same_polled r (poll sh rounds params) (poll gsh rounds params) c' (record t { world = w })
          (same_poll rounds params)

  same_run_log :
      (rounds : ℕ) (p : Parsed) (t : Console W) → run_log gsh rounds p t ≡ run_log sh rounds p t
  unfolding run_log
  same_run_log rounds (refused os) t = refl
  same_run_log rounds (options o) t =
      if_alike o.follow (same_poll rounds _ new_client t)
        (ap some (same_request env sh "log" _ t log_handled))

  hung_up_same : (x : Option (ℕ × Console W)) → Log.hung_up gsh x ≡ Log.hung_up sh x
  hung_up_same none = refl
  hung_up_same (some (code, t)) = refl

  hung_up_alike : {x y : Option (ℕ × Console W)} → x ≡ y → Log.hung_up gsh x ≡ Log.hung_up sh y
  hung_up_alike {x = x} e = ap (Log.hung_up gsh) e ∙ hung_up_same _

  same_log_connected :
      (rounds : ℕ) (args : List String) (r : Result (Unit {0})) (t : Console W)
      → log_connected gsh rounds args r t ≡ log_connected sh rounds args r t
  unfolding log_connected
  same_log_connected rounds args (err e) t = refl
  same_log_connected rounds args (ok _) t =
      hung_up_alike (same_run_log rounds (parse_log sh.os.quote args no_options) t)

  same_log_or_crash :
      (rounds : ℕ) (args : List String) (crash : Option (List String)) (t : Console W)
      → log_or_crash gsh rounds args crash t ≡ log_or_crash sh rounds args crash t
  unfolding cmd_log_crash
  same_log_or_crash rounds args (some rest) t =
      ap some (same_planned (crash_plan rest) t (crash_handled env rest))
  same_log_or_crash rounds args none t =
      let (r, w) = ensure_daemon sh t.world in
      ap (λ p. log_connected gsh rounds args p.0 (record t { world = p.1 }))
        (same_ensure env sh t.world)
      ∙ same_log_connected rounds args r (record t { world = w })

  pub same_log :
      (rounds : ℕ) (args : List String) (t : Console W)
      → cmd_log gsh rounds args t ≡ cmd_log sh rounds args t
  unfolding cmd_log
  same_log rounds args t =
      if_alike (any_help args) refl (same_log_or_crash rounds args (crash_args sh args) t)
