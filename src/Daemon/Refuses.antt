-- ===== src/Daemon/Refuses.antt =====
-- The handlers that need a device, where none is connected (internal/daemon/state.go).
use ios_pilot.Base.{String, ◌≡◌, refl, Bool, true, ◌||◌, Option, none, some, arith, ◌==◌}
use ios_pilot.Errors.{GoError, ok, err, Call}
use ios_pilot.Json.{Json, unmarshal}
use ios_pilot.Apps as Apps
use ios_pilot.Apps.{on_device, require_connected}
use ios_pilot.Ui as Ui
use ios_pilot.Ui.{guarded, require_full_mode}
use ios_pilot.Daemon.{Env, State, Reply, Outcome, Handler, reply, replying}
use ios_pilot.Daemon.Params.{ActParams, assign_only, assign_act, no_act}
use ios_pilot.Daemon.Handlers.{
  unless_error, strict, strict_text, act, install, launch, kill, uninstall, handle_act,
  handle_app_list, handle_app_install, handle_app_launch, handle_app_kill, handle_app_uninstall,
  handle_app_foreground,
}
use ios_pilot.Daemon.Server.{register_handlers}
use ios_pilot.Daemon.Table.{AllHandlers}

-- The methods that act on the connected device or on an application there.
abbrev pub needs_device : String → Bool
needs_device m =
    m == "act"
    || m == "app.list"
    || m == "app.install"
    || m == "app.launch"
    || m == "app.kill"
    || m == "app.uninstall"
    || m == "app.foreground"

module _ {W : Type 0} where
  -- an error, and nothing done
  abbrev pub Refuses : State W → Outcome W → Type 0
  Refuses s none = ⊥
  Refuses s (some (ok a, s')) = ⊥
  Refuses s (some (err e, s')) = s' ≡ s

  unless_error-Refuses :
      {P : Type 0} (context : String) (e : Option GoError) (body : P → State W → Outcome W) (p : P)
      (s : State W)
      → ((p : P) → Refuses s (body p s))
      → Refuses s (unless_error context e body p s)
  unfolding unless_error
  unless_error-Refuses context (some x) body p s h = refl
  unless_error-Refuses context none body p s h = h p

  strict_text-Refuses :
      (name : String) (params : Option Json) (body : String → State W → Outcome W) (s : State W)
      → ((p : String) → Refuses s (body p s))
      → Refuses s (strict_text name params body s)
  unfolding strict_text strict
  strict_text-Refuses name params body s h =
      let (p, e) = unmarshal (assign_only name) params "" in
      unless_error-Refuses "invalid params" e body p s h

  on_device-Refuses :
      {A : Type 0} (f : A → Reply) (call : String → Call W A) (s : State W)
      → s.device_manager.connected ≡ none
      → Refuses s (replying f (on_device call s.device_manager) s)
  unfolding replying reply on_device require_connected
  on_device-Refuses f call s away = rw away refl

module _ {W : Type 0} (env : Env W) where
  act-Refuses :
      (p : ActParams) (s : State W) → s.device_manager.connected ≡ none → Refuses s (act env p s)
  unfolding act replying reply Ui.tap Ui.swipe Ui.input Ui.press guarded require_full_mode
  act-Refuses p s away = ground arith

  install-Refuses :
      (path : String) (s : State W)
      → s.device_manager.connected ≡ none
      → Refuses s (install env path s)
  unfolding install replying reply Apps.install on_device require_connected
  install-Refuses path s away = ground arith

  launch-Refuses :
      (bundle_id : String) (s : State W)
      → s.device_manager.connected ≡ none
      → Refuses s (launch env bundle_id s)
  unfolding launch replying reply Apps.launch on_device require_connected
  launch-Refuses bundle_id s away = ground arith

  kill-Refuses :
      (bundle_id : String) (s : State W)
      → s.device_manager.connected ≡ none
      → Refuses s (kill env bundle_id s)
  unfolding kill replying reply Apps.kill on_device require_connected
  kill-Refuses bundle_id s away = ground arith

  uninstall-Refuses :
      (bundle_id : String) (s : State W)
      → s.device_manager.connected ≡ none
      → Refuses s (uninstall env bundle_id s)
  unfolding uninstall replying reply Apps.uninstall on_device require_connected
  uninstall-Refuses bundle_id s away = ground arith

  list-Refuses :
      (params : Option Json) (s : State W)
      → s.device_manager.connected ≡ none
      → Refuses s (handle_app_list env params s)
  unfolding handle_app_list replying reply Apps.list on_device require_connected
  list-Refuses params s away = ground arith

  foreground-Refuses :
      (params : Option Json) (s : State W)
      → s.device_manager.connected ≡ none
      → Refuses s (handle_app_foreground env params s)
  unfolding handle_app_foreground replying reply Apps.foreground on_device require_connected
  foreground-Refuses params s away = ground arith

  act_params-Refuses :
      (params : Option Json) (s : State W)
      → s.device_manager.connected ≡ none
      → Refuses s (handle_act env params s)
  unfolding handle_act strict
  act_params-Refuses params s away =
      let (p, e) = unmarshal assign_act params no_act in
      unless_error-Refuses "invalid act params" e (act env) p s (λ q. act-Refuses q s away)

  abbrev pub RefusesAway : String → Handler W → Type 0
  RefusesAway m h =
      needs_device m ≡ true
      → (params : Option Json) (s : State W) → s.device_manager.connected ≡ none
      → Refuses s (h params s)

  pub register_handlers-Refuses : AllHandlers RefusesAway (register_handlers env)
  unfolding register_handlers handle_app_install handle_app_launch handle_app_kill
      handle_app_uninstall
  register_handlers-Refuses = (
    (λ e params s away. absurd cc),
    (
      (λ e params s away. absurd cc),
      (
        (λ e params s away. absurd cc),
        (
          (λ e params s away. absurd cc),
          (
            (λ e params s away. absurd cc),
            (
              (λ e params s away. absurd cc),
              (
                (λ e params s away. absurd cc),
                (
                  (λ e params s away. absurd cc),
                  (
                    (λ e params s away. absurd cc),
                    (
                      (λ e params s away. absurd cc),
                      (
                        (λ _ params s away. foreground-Refuses params s away),
                        (
                          (λ _ params s away.
                              strict_text-Refuses "bundle_id" params _ s
                                (λ p. uninstall-Refuses p s away)),
                          (
                            (λ _ params s away.
                                strict_text-Refuses "bundle_id" params _ s
                                  (λ p. kill-Refuses p s away)),
                            (
                              (λ _ params s away.
                                  strict_text-Refuses "bundle_id" params _ s
                                    (λ p. launch-Refuses p s away)),
                              (
                                (λ _ params s away.
                                    strict_text-Refuses "path" params _ s
                                      (λ p. install-Refuses p s away)),
                                (
                                  (λ _ params s away. list-Refuses params s away),
                                  (
                                    (λ _ params s away. act_params-Refuses params s away),
                                    (
                                      (λ e params s away. absurd cc),
                                      (
                                        (λ e params s away. absurd cc),
                                        (
                                          (λ e params s away. absurd cc),
                                          (
                                            (λ e params s away. absurd cc),
                                            ((λ e params s away. absurd cc), tt),
                                          ),
                                        ),
                                      ),
                                    ),
                                  ),
                                ),
                              ),
                            ),
                          ),
                        ),
                      ),
                    ),
                  ),
                ),
              ),
            ),
          ),
        ),
      ),
    ),
  )
