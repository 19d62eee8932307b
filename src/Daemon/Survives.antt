-- ===== src/Daemon/Survives.antt =====
-- Which lines end the daemon by a panic and which do not (internal/daemon/server.go).
use ios_pilot.Base.{◌≡◌, refl, Bool, true, false, ◌||◌, Option, none, some, List, [], ◌∷◌, arith}
use ios_pilot.Errors.{Result, ok, err}
use ios_pilot.Driver.{LogEntry}
use ios_pilot.Json.{Json}
use ios_pilot.Protocol.{Request, Response, decode_request}
use ios_pilot.Logs.Ring.History.{Represents}
use ios_pilot.Logs.Manager.{list_crashes}
use ios_pilot.Daemon.{Env, State, Reply, Handler}
use ios_pilot.Daemon.Reports.{handle_crash_list, crash_reply}
use ios_pilot.Daemon.Server.{
  find_handler, register_handlers, respond, route, dispatch_request, and_then, add_response,
  Incoming, received, unwritten, unread, dispatch, handle_conn,
}
use ios_pilot.Daemon.Table.{find_handler-AllHandlers}
use ios_pilot.Daemon.Preserves.{Keeps}
use ios_pilot.Daemon.Reachable.{dispatch-Keeps}
use ios_pilot.Daemon.Panics.{is_some, asks_crashes, respond_returns}
use ios_pilot.Daemon.Returns.{Returns, register_handlers_return}

-- The line is a request for a report of crashes.
abbrev pub wants_crashes : Result Request → Bool
wants_crashes (err e) = false
wants_crashes (ok req) = asks_crashes req.method

-- Some line that comes in is one.
abbrev pub any_wants_crashes : List Incoming → Bool
any_wants_crashes [] = false
any_wants_crashes (received line ∷ rest) =
    wants_crashes (decode_request line) || any_wants_crashes rest
any_wants_crashes (unwritten line ∷ rest) =
    wants_crashes (decode_request line) || any_wants_crashes rest
any_wants_crashes (unread ∷ rest) = any_wants_crashes rest

module _ {W : Type 0} where
  route_returns :
      (req : Request) (found : Option (Handler W)) (s : State W)
      → ((h : Handler W) → found ≡ some h → is_some (h req.params s) ≡ true)
      → is_some (route req found s) ≡ true
  unfolding route
  route_returns req none s all = refl
  route_returns req (some h) s all = respond_returns req.id (h req.params s) (all h refl)

  add_response_returns :
      (resp : Response Reply) (rest : Option (List (Response Reply) × State W))
      → is_some rest ≡ true
      → is_some (add_response resp rest) ≡ true
  unfolding add_response
  add_response_returns resp none h = h
  add_response_returns resp (some (rs, s)) h = refl

module _ {W : Type 0} (env : Env W) where
  dispatch_request_returns :
      (r : Result Request) (s : State W) (hs : List LogEntry)
      → Represents s.log_manager.buffer hs
      → wants_crashes r ≡ false
      → is_some (dispatch_request (register_handlers env) r s) ≡ true
  unfolding dispatch_request
  dispatch_request_returns (err e) s hs h other = refl
  dispatch_request_returns (ok req) s hs h other =
      let table = register_handlers env in
      route_returns req (find_handler req.method table) s (λ k found.
        find_handler-AllHandlers (Returns env) req.method table k (register_handlers_return env)
          found other req.params s hs h)

  dispatch_returns :
      (line : Result Json) (s : State W) (hs : List LogEntry)
      → Represents s.log_manager.buffer hs
      → wants_crashes (decode_request line) ≡ false
      → is_some (dispatch env line s) ≡ true
  unfolding dispatch
  dispatch_returns line s hs h other = dispatch_request_returns (decode_request line) s hs h other

  and_then_returns :
      (resp_and_state : Option (Response Reply × State W)) (lines : List Incoming) (s : State W)
      (hs : List LogEntry)
      → Represents s.log_manager.buffer hs
      → is_some resp_and_state ≡ true
      → Keeps s resp_and_state
      → ((s' : State W)
          → Represents s'.log_manager.buffer hs
          → is_some (handle_conn env lines s') ≡ true)
      → is_some (and_then resp_and_state (λ resp s'. add_response resp (handle_conn env lines s')))
        ≡ true
  unfolding and_then
  and_then_returns none lines s hs h here kept next = here
  and_then_returns (some (resp, s')) lines s hs h here kept next =
      add_response_returns resp (handle_conn env lines s') (next s' (rw (kept.same_buffer) h))

  unwritten_returns :
      (o : Option (Response Reply × State W))
      → is_some o ≡ true
      → let served : Option (List (Response Reply) × State W) =
          and_then o (λ resp s'. some ([], s')) in
        is_some served ≡ true
  unfolding and_then
  unwritten_returns none here = here
  unwritten_returns (some (resp, s')) here = refl

  -- While the log buffer is sound, a connection is served to its end without a panic, whatever the
  -- lines are (no JSON, unknown methods, wrong parameters), whether they can be read and their
  -- responses written, and whatever the drivers answer, if no line asks for reports of crashes.
  pub handle_conn_returns :
      (ins : List Incoming) (s : State W) (hs : List LogEntry)
      → Represents s.log_manager.buffer hs
      → any_wants_crashes ins ≡ false
      → is_some (handle_conn env ins s) ≡ true
  unfolding handle_conn
  handle_conn_returns [] s hs h other = refl
  handle_conn_returns (received line ∷ rest) s hs h other =
      and_then_returns (dispatch env line s) rest s hs h
        (dispatch_returns line s hs h (ground arith)) (dispatch-Keeps env line s)
        (λ s' h'. handle_conn_returns rest s' hs h' (ground arith))
  handle_conn_returns (unwritten line ∷ rest) s hs h other =
      unwritten_returns (dispatch env line s) (dispatch_returns line s hs h (ground arith))
  handle_conn_returns (unread ∷ rest) s hs h other = refl

  handle_crash_list_panics :
      (params : Option Json) (s : State W)
      → env.crash_driver ≡ none
      → handle_crash_list env params s ≡ none
  unfolding handle_crash_list list_crashes crash_reply
  handle_crash_list_panics params s no_driver = ground arith

  -- With the nil driver of crash reports that the daemon is wired with, a request "log.crash.list"
  -- panics in every state, whatever its identifier and its parameters are.
  pub crash_list_panics :
      (line : Result Json) (req : Request) (s : State W)
      → env.crash_driver ≡ none
      → decode_request line ≡ ok req
      → req.method ≡ "log.crash.list"
      → dispatch env line s ≡ none
  unfolding dispatch dispatch_request respond
  crash_list_panics line req s no_driver decoded named =
      rw (decoded, named, handle_crash_list_panics req.params s no_driver) refl
