-- ===== src/Daemon/Server.antt =====
-- The table of handlers (`Server.Handle`, `State.RegisterHandlers`) and the routing of a line
-- (`dispatch`, `handleConn`), in internal/daemon/server.go and internal/daemon/state.go.
use ios_pilot.Base.{String, Option, none, some, List, [], ◌∷◌, ◌==◌, if◌then◌else◌}
use ios_pilot.Base.Int.{negsuc}
use ios_pilot.Errors.{
  GoError, protocol, errorf, wrapped, RpcError, error_text, err_invalid_request,
  err_method_not_found, Result, ok, err,
}
use ios_pilot.Json.{Json, null}
use ios_pilot.Protocol.{Request, Response, new_response, new_error_response, decode_request}
use ios_pilot.Daemon.{Env, State, Reply, Outcome, Handler}
use ios_pilot.Daemon.Handlers.{
  handle_device_list, handle_device_connect, handle_device_status, handle_device_disconnect,
  handle_look, handle_act, handle_app_list, handle_app_install, handle_app_launch, handle_app_kill,
  handle_app_uninstall, handle_app_foreground, handle_wda_status, handle_wda_restart,
  handle_daemon_status,
}
use ios_pilot.Daemon.Reports.{
  handle_log, handle_crash_list, handle_crash_get, handle_check_screen, handle_check_element,
  handle_check_app_running, handle_check_no_crash,
}

-- the map of handlers: of two entries for a method the one that was added later counts
abbrev pub Table : Type 0 → Type 0
Table W = List (String × Handler W)

abbrev pub handle : {W : Type 0} → String → Handler W → Table W → Table W
handle method h table = (method, h) ∷ table

unfoldable pub find_handler : {W : Type 0} → String → Table W → Option (Handler W)
find_handler method [] = none
find_handler method ((m, h) ∷ table) = if m == method then some h else find_handler method table

module _ {W : Type 0} (env : Env W) where
  -- in the order of `RegisterHandlers`, the first at the end
  unfoldable pub register_handlers : Table W
  register_handlers = handle "daemon.status" (handle_daemon_status env) (
      handle "wda.restart" (handle_wda_restart env) (
        handle "wda.status" (handle_wda_status env) (
          handle "check.no_crash" (handle_check_no_crash env) (
            handle "check.app_running" (handle_check_app_running env) (
              handle "check.element" (handle_check_element env) (
                handle "check.screen" (handle_check_screen env) (
                  handle "log.crash.get" (handle_crash_get env) (
                    handle "log.crash.list" (handle_crash_list env) (
                      handle "log" (handle_log env) (
                        handle "app.foreground" (handle_app_foreground env) (
                          handle "app.uninstall" (handle_app_uninstall env) (
                            handle "app.kill" (handle_app_kill env) (
                              handle "app.launch" (handle_app_launch env) (
                                handle "app.install" (handle_app_install env) (
                                  handle "app.list" (handle_app_list env) (
                                    handle "act" (handle_act env) (
                                      handle "look" (handle_look env) (
                                        handle "device.disconnect" (handle_device_disconnect env) (
                                          handle "device.status" (handle_device_status env) (
                                            handle "device.connect" (handle_device_connect env) (
                                              handle "device.list" (handle_device_list env)
                                                [])))))))))))))))))))))

-- the error that goes out for the error of a handler: any but a `*protocol.Error` is an internal error
abbrev pub sent_error : GoError → RpcError
sent_error (protocol e) = e
sent_error (errorf text) = record {
  code = negsuc 32602;
  message = "Internal error";
  details = some text;
}
sent_error (wrapped context e) = record {
  code = negsuc 32602;
  message = "Internal error";
  details = some (error_text (wrapped context e));
}

unfoldable pub respond : {W : Type 0} → Json → Outcome W → Option (Response Reply × State W)
respond id none = none
respond id (some (ok result, s)) = some (new_response id result, s)
respond id (some (err e, s)) =
    some (record { jsonrpc = "2.0"; id = id; result = none; error = some (sent_error e) }, s)

-- a request to the handler that was found
unfoldable pub route :
    {W : Type 0} → Request → Option (Handler W) → State W → Option (Response Reply × State W)
unfolding respond
route req none s = some (new_error_response req.id err_method_not_found none, s)
route req (some h) s = respond req.id (h req.params s)

-- a decoded line
unfoldable pub dispatch_request :
    {W : Type 0} → Table W → Result Request → State W → Option (Response Reply × State W)
unfolding route find_handler
dispatch_request table (err e) s =
    some (new_error_response null err_invalid_request (some (error_text e)), s)
dispatch_request table (ok req) s = route req (find_handler req.method table) s

-- What a connection brings: a line whose response is written; a line whose response cannot be
-- written, which ends the connection; and what the scanner gives up at, a failed read or a line
-- longer than its 64 KB.
pub data Incoming : Type 0 where
  received unwritten : Result Json → Incoming
  unread : Incoming

-- a panic ends the daemon, and what follows it is not done
unfoldable pub and_then : {A B W : Type 0} → Option (A × W) → (A → W → Option B) → Option B
and_then none next = none
and_then (some (a, s)) next = next a s

unfoldable pub add_response :
    {W : Type 0}
    → Response Reply
    → Option (List (Response Reply) × State W)
    → Option (List (Response Reply) × State W)
add_response resp none = none
add_response resp (some (rs, s)) = some (resp ∷ rs, s)

module _ {W : Type 0} (env : Env W) where
  unfoldable pub dispatch : Result Json → State W → Option (Response Reply × State W)
  unfolding register_handlers dispatch_request
  dispatch line s = dispatch_request (register_handlers env) (decode_request line) s

  -- the loop of `handleConn` over what comes in, with the responses that were written, in order
  unfoldable pub handle_conn : List Incoming → State W → Option (List (Response Reply) × State W)
  unfolding dispatch and_then add_response
  handle_conn [] s = some ([], s)
  handle_conn (received line ∷ rest) s =
      and_then (dispatch line s) (λ resp s'. add_response resp (handle_conn rest s'))
  handle_conn (unwritten line ∷ rest) s = and_then (dispatch line s) (λ resp s'. some ([], s'))
  handle_conn (unread ∷ rest) s = some ([], s)
