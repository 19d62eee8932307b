-- ===== src/Daemon/Returns.antt =====
-- The methods whose handlers return (internal/daemon/state.go).
use ios_pilot.Base.{String, ◌≡◌, refl, true, false, Option, List}
use ios_pilot.Driver.{LogEntry}
use ios_pilot.Json.{Json}
use ios_pilot.Logs.Ring.History.{Represents}
use ios_pilot.Daemon.{Env, State, Handler}
use ios_pilot.Daemon.Handlers.{
  launch, kill, uninstall, handle_device_list, handle_device_status, handle_device_disconnect,
  handle_look, handle_act, handle_app_list, handle_app_install, handle_app_launch, handle_app_kill,
  handle_app_uninstall, handle_app_foreground, handle_wda_status, handle_wda_restart,
  handle_daemon_status,
}
use ios_pilot.Daemon.Reports.{
  check_element, check_app_running, check_no_crash, handle_check_screen, handle_check_element,
  handle_check_app_running, handle_check_no_crash,
}
use ios_pilot.Daemon.Server.{register_handlers}
use ios_pilot.Daemon.Table.{AllHandlers}
use ios_pilot.Daemon.Panics.{
  is_some, asks_crashes, restart_returns, handle_device_connect_returns, act_returns,
  install_returns, handle_log_returns, reply_returns, strict_returns, strict_text_returns,
}

module _ {W : Type 0} (env : Env W) where
  -- Every method but those of crash reports returns, while the buffer is sound.
  abbrev pub Returns : String → Handler W → Type 0
  Returns m h =
      asks_crashes m ≡ false
      → (params : Option Json) (s : State W) (hs : List LogEntry)
      → Represents s.log_manager.buffer hs
      → is_some (h params s) ≡ true

  pub register_handlers_return : AllHandlers Returns (register_handlers env)
  unfolding register_handlers handle_device_list handle_device_status handle_device_disconnect
      handle_look handle_act handle_app_list handle_app_install handle_app_launch handle_app_kill
      handle_app_uninstall handle_app_foreground handle_check_screen handle_check_element
      handle_check_app_running handle_check_no_crash handle_wda_status handle_wda_restart
      handle_daemon_status launch kill uninstall check_element check_app_running check_no_crash
  register_handlers_return = (
    (λ _ params s hs h. refl),
    (
      (λ _ params s hs h. restart_returns env s.device_manager.connected s),
      (
        (λ _ params s hs h. refl),
        (
          (λ _ params s hs h. strict_text_returns _ params _ s (λ p. reply_returns _ _ _)),
          (
            (λ _ params s hs h. strict_text_returns _ params _ s (λ p. reply_returns _ _ _)),
            (
              (λ _ params s hs h. strict_text_returns _ params _ s (λ p. reply_returns _ _ _)),
              (
                (λ _ params s hs h. reply_returns _ _ _),
                (
                  (λ e params s hs h. absurd cc),
                  (
                    (λ e params s hs h. absurd cc),
                    (
                      (λ _ params s hs h. handle_log_returns env params s hs h),
                      (
                        (λ _ params s hs h. reply_returns _ _ _),
                        (
                          (λ _ params s hs h.
                              strict_text_returns _ params _ s (λ p. reply_returns _ _ _)),
                          (
                            (λ _ params s hs h.
                                strict_text_returns _ params _ s (λ p. reply_returns _ _ _)),
                            (
                              (λ _ params s hs h.
                                  strict_text_returns _ params _ s (λ p. reply_returns _ _ _)),
                              (
                                (λ _ params s hs h.
                                    strict_text_returns "path" params _ s
                                      (λ p. install_returns env p s)),
                                (
                                  (λ _ params s hs h. reply_returns _ _ _),
                                  (
                                    (λ _ params s hs h.
                                        strict_returns "invalid act params" _ _ params _ s
                                          (λ p. act_returns env p s)),
                                    (
                                      (λ _ params s hs h. reply_returns _ _ _),
                                      (
                                        (λ _ params s hs h. refl),
                                        (
                                          (λ _ params s hs h. refl),
                                          (
                                            (λ _ params s hs h.
                                                handle_device_connect_returns env params s),
                                            ((λ _ params s hs h. reply_returns _ _ _), tt),
                                          ),
                                        ),
                                      ),
                                    ),
                                  ),
                                ),
                              ),
                            ),
                          ),
                        ),
                      ),
                    ),
                  ),
                ),
              ),
            ),
          ),
        ),
      ),
    ),
  )
