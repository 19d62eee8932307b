-- ===== src/Daemon/Reachable.antt =====
-- What holds of the daemon after any requests (internal/daemon/server.go).
use ios_pilot.Base.{ℕ, String, ◌≡◌, refl, sym, ap, suc, Option, none, some, List, [], ◌∷◌, length}
use ios_pilot.Errors.{Result, ok, err}
use ios_pilot.Json.{Json}
use ios_pilot.Protocol.{Request, Response, decode_request}
use ios_pilot.Daemon.{Env, State, Reply, Outcome, Handler}
use ios_pilot.Daemon.Server.{
  Incoming, received, unwritten, unread, find_handler, register_handlers, respond, route,
  dispatch_request, and_then, add_response, dispatch, handle_conn,
}
use ios_pilot.Daemon.Table.{AllHandlers, find_handler-AllHandlers}
use ios_pilot.Daemon.Handlers.{
  handle_device_list, handle_device_connect, handle_device_status, handle_device_disconnect,
  handle_look, handle_act, handle_app_list, handle_app_install, handle_app_launch, handle_app_kill,
  handle_app_uninstall, handle_app_foreground, handle_wda_status, handle_wda_restart,
  handle_daemon_status, launch, kill, uninstall,
}
use ios_pilot.Daemon.Reports.{
  handle_log, handle_crash_list, handle_crash_get, handle_check_screen, handle_check_element,
  handle_check_app_running, handle_check_no_crash, check_element, check_app_running, check_no_crash,
}
use ios_pilot.Daemon.Preserves.{
  Preserved, Preserved-trans, Keeps, same, moved, reply-Keeps, crash_reply-Keeps, strict-Keeps,
  strict_text-Keeps, handle_device_connect-Keeps, handle_device_disconnect-Keeps, restart-Keeps,
  act-Keeps, install-Keeps, handle_log-Keeps,
}

module _ {W : Type 0} (env : Env W) where
  abbrev KeepsAll : String → Handler W → Type 0
  KeepsAll m h = (params : Option Json) (s : State W) → Keeps s (h params s)

  register_handlers-Keeps : AllHandlers KeepsAll (register_handlers env)
  unfolding register_handlers handle_device_list handle_device_connect handle_device_status
      handle_device_disconnect handle_look handle_act handle_app_list handle_app_install
      handle_app_launch handle_app_kill handle_app_uninstall handle_app_foreground handle_log
      handle_crash_list handle_crash_get handle_check_screen handle_check_element
      handle_check_app_running handle_check_no_crash handle_wda_status handle_wda_restart
      handle_daemon_status launch kill uninstall check_element check_app_running check_no_crash
  register_handlers-Keeps = (
    (λ params s. same s),
    (
      (λ params s. restart-Keeps env s.device_manager.connected s),
      (
        (λ params s. same s),
        (
          (λ params s. strict_text-Keeps _ params _ s (λ p. reply-Keeps _ _ s _ (moved s _))),
          (
            (λ params s. strict_text-Keeps _ params _ s (λ p. reply-Keeps _ _ s _ (moved s _))),
            (
              (λ params s. strict_text-Keeps _ params _ s (λ p. reply-Keeps _ _ s _ (moved s _))),
              (
                (λ params s. reply-Keeps _ _ s _ (moved s _)),
                (
                  (λ params s. strict_text-Keeps "id" params _ s (λ id. crash_reply-Keeps _ _ s)),
                  (
                    (λ params s. crash_reply-Keeps _ _ s),
                    (
                      handle_log-Keeps env,
                      (
                        (λ params s. reply-Keeps _ _ s _ (moved s _)),
                        (
                          (λ params s.
                              strict_text-Keeps _ params _ s
                                (λ p. reply-Keeps _ _ s _ (moved s _))),
                          (
                            (λ params s.
                                strict_text-Keeps _ params _ s
                                  (λ p. reply-Keeps _ _ s _ (moved s _))),
                            (
                              (λ params s.
                                  strict_text-Keeps _ params _ s
                                    (λ p. reply-Keeps _ _ s _ (moved s _))),
                              (
                                (λ params s.
                                    strict_text-Keeps "path" params _ s
                                      (λ p. install-Keeps env p s)),
                                (
                                  (λ params s. reply-Keeps _ _ s _ (moved s _)),
                                  (
                                    (λ params s.
                                        strict-Keeps "invalid act params" _ _ params _ s
                                          (λ p. act-Keeps env p s)),
                                    (
                                      (λ params s. reply-Keeps _ _ s _ (moved s _)),
                                      (
                                        handle_device_disconnect-Keeps env,
                                        (
                                          (λ params s. same s),
                                          (
                                            handle_device_connect-Keeps env,
                                            ((λ params s. reply-Keeps _ _ s _ (moved s _)), tt),
                                          ),
                                        ),
                                      ),
                                    ),
                                  ),
                                ),
                              ),
                            ),
                          ),
                        ),
                      ),
                    ),
                  ),
                ),
              ),
            ),
          ),
        ),
      ),
    ),
  )

respond-Keeps :
    {W : Type 0} (id : Json) (o : Outcome W) (s : State W) → Keeps s o → Keeps s (respond id o)
unfolding respond
respond-Keeps id none s h = tt
respond-Keeps id (some (ok result, s')) s h = h
respond-Keeps id (some (err e, s')) s h = h

route-Keeps :
    {W : Type 0} (req : Request) (found : Option (Handler W)) (s : State W)
    → ((h : Handler W) → found ≡ some h → Keeps s (h req.params s))
    → Keeps s (route req found s)
unfolding route
route-Keeps req none s all = same s
route-Keeps req (some h) s all = respond-Keeps req.id (h req.params s) s (all h refl)

module _ {W : Type 0} (env : Env W) where
  dispatch_request-Keeps :
      (r : Result Request) (s : State W) → Keeps s (dispatch_request (register_handlers env) r s)
  unfolding dispatch_request
  dispatch_request-Keeps (err e) s = same s
  dispatch_request-Keeps (ok req) s =
      let table = register_handlers env in
      route-Keeps req (find_handler req.method table) s (λ h found.
        find_handler-AllHandlers (KeepsAll env) req.method table h (register_handlers-Keeps env)
          found req.params s)

  pub dispatch-Keeps : (line : Result Json) (s : State W) → Keeps s (dispatch env line s)
  unfolding dispatch
  dispatch-Keeps line s = dispatch_request-Keeps (decode_request line) s

  -- the lines up to the first whose response is not written or that is not read
  abbrev pub written : List Incoming → ℕ
  written [] = 0
  written (received line ∷ rest) = suc (written rest)
  written (unwritten line ∷ rest) = 0
  written (unread ∷ rest) = 0

  -- There are so many responses, and the state is preserved.
  abbrev Served : ℕ → State W → Option (List (Response Reply) × State W) → Type 0
  Served n s none = Unit {0}
  Served n s (some (rs, s')) = Preserved s s' × (length rs ≡ n)

  add_response-Served :
      (n : ℕ) (s s₁ : State W) (resp : Response Reply)
      (rest : Option (List (Response Reply) × State W))
      → Preserved s s₁
      → Served n s₁ rest
      → Served (suc n) s (add_response resp rest)
  unfolding add_response
  add_response-Served n s s₁ resp none h k = tt
  add_response-Served n s s₁ resp (some (rs, s₂)) h k =
      (Preserved-trans s s₁ s₂ h k.0, ap (λ n. suc n) k.1)

  and_then-Served :
      (rest : List Incoming) (s : State W) (o : Option (Response Reply × State W))
      → Keeps s o
      → ((s₁ : State W) → Served (written rest) s₁ (handle_conn env rest s₁))
      → Served
          (suc (written rest))
          s
          (and_then o (λ resp s₁. add_response resp (handle_conn env rest s₁)))
  unfolding and_then
  and_then-Served rest s none h k = tt
  and_then-Served rest s (some (resp, s₁)) h k =
      add_response-Served (written rest) s s₁ resp (handle_conn env rest s₁) h (k s₁)

  unwritten-Served :
      (s : State W) (o : Option (Response Reply × State W))
      → Keeps s o
      → Served 0 s (and_then o (λ resp s₁. some ([], s₁)))
  unfolding and_then
  unwritten-Served s none h = tt
  unwritten-Served s (some (resp, s₁)) h = (h, refl)

  handle_conn-Served :
      (ins : List Incoming) (s : State W) → Served (written ins) s (handle_conn env ins s)
  unfolding handle_conn
  handle_conn-Served [] s = (same s, refl)
  handle_conn-Served (received line ∷ rest) s =
      and_then-Served rest s (dispatch env line s) (dispatch-Keeps line s) (handle_conn-Served rest)
  handle_conn-Served (unwritten line ∷ rest) s =
      unwritten-Served s (dispatch env line s) (dispatch-Keeps line s)
  handle_conn-Served (unread ∷ rest) s = (same s, refl)

  -- The lines of a connection that the daemon serves without a panic get one response each, up to a
  -- line that is not read or whose response cannot be written. A coherent device manager is coherent
  -- afterwards, and the stored log entries are the same, whatever the lines are and whatever the
  -- drivers answer.
  pub handle_conn-Preserved :
      (ins : List Incoming) (s s' : State W) (rs : List (Response Reply))
      → handle_conn env ins s ≡ some (rs, s')
      → Preserved s s' × (length rs ≡ written ins)
  handle_conn-Preserved ins s s' rs e = coe_served e (handle_conn-Served ins s)
    where
      coe_served :
          {o o' : Option (List (Response Reply) × State W)}
          → o ≡ o'
          → Served (written ins) s o
          → Served (written ins) s o'
      coe_served p h = rw (sym p) h
