-- ===== src/Cli/Local.antt =====
-- The command line and the daemon together: the shell's connection is one to a daemon that dispatches
-- every line (internal/cli, internal/client/client.go, internal/daemon/server.go).
use ios_pilot.Base.{
  ℕ, String, ◌≡◌, refl, subst, Bool, true, false, Option, none, some, List, [], ◌∷◌,
}
use ios_pilot.Base.Int.{pos}
use ios_pilot.Base.Text.{concat}
use ios_pilot.Errors.{GoError, errorf, Result, ok, err}
use ios_pilot.Json.{Json, num}
use ios_pilot.Protocol.{Response, new_request, new_response, encode_request}
use ios_pilot.Json.Number.{first_id}
use ios_pilot.Protocol.Wire.{decode_request-encode_request}
use ios_pilot.Client.{Conn, line, closed, into_any, encode_response, call}
use ios_pilot.Client.Answered.{
  seen, code_fits, details_json, decode_response-encode_response, call_answered,
}
use ios_pilot.Daemon.{Env, State, Reply, Handler}
use ios_pilot.Daemon.Server.{
  register_handlers, find_handler, respond, dispatch, dispatch_request, route, sent_error,
}
use ios_pilot.Cli.{
  Output, json, complaint, Console, Shell, Command, request, handle_response, print, print_details,
  new_client, with_daemon, ensure_daemon, dial,
}
use ios_pilot.Cli.Commands.{Plan, ask, is_help, carry_out, subcommand}

-- Both ends of the connection: the daemon, none after a panic, and the response that was sent and not
-- read yet.
pub record Link (V : Type 0) : Type 0 where
  pub daemon : Option (State V)
  pub pending : Option Json

module _ {V : Type 0} (env : Env V) (enc : Reply → Json) where
  abbrev answered : Option (Response Reply × State V) → Result (Unit {0}) × Link V
  answered none = (ok tt, record { daemon = none; pending = none })
  answered (some (resp, s)) =
      (ok tt, record { daemon = some s; pending = some (encode_response enc resp) })

  abbrev sent_to : Json → Option (State V) → Link V → Result (Unit {0}) × Link V
  sent_to j none l = (err (errorf "broken pipe"), l)
  sent_to j (some s) l = answered (dispatch env (ok j) s)

  -- what is sent is dispatched, and the response is read by the next scan
  abbrev pub local_conn : Conn (Link V)
  local_conn = record {
    send = λ j l. sent_to j l.daemon l;
    set_deadline = λ l. (ok tt, l);
    scan = λ l. elim l.pending [
      | none ↦ (closed, l)
      | some j ↦ (line (ok j), record l { pending = none })
    ];
    clear_deadline = λ l. l;
  }

  abbrev pub resting : State V → Link V
  resting s = record { daemon = some s; pending = none }

  -- a shell whose socket is that of the daemon
  abbrev pub local_shell : Shell (Link V) → Shell (Link V)
  local_shell sh = record sh { dial_unix = λ _ l. (ok tt, l); conn = local_conn }

  call_answers :
      (method : String) (params : Option Json) (s s' : State V) (resp : Response Reply)
      → dispatch env (ok (encode_request (new_request (num (pos 1)) method params))) s
        ≡ some (resp, s')
      → code_fits resp.error ≡ true
      → call local_conn method (ok params) new_client (resting s)
        ≡ (ok (seen enc resp), record { next_id = 1 }, resting s')
  call_answers method params s s' resp served fits =
      let sent : Link V = record { daemon = some s'; pending = some (encode_response enc resp) } in
      subst
        (λ r.
          call local_conn method (ok params) new_client (resting s)
          ≡ (r, record { next_id = 1 }, resting s'))
        (decode_response-encode_response enc resp fits)
        (call_answered local_conn method params new_client (resting s) sent sent (resting s')
          (ok (encode_response enc resp)) (rw served refl) refl refl)

  -- what a handler answers is printed: its result and the code 0, or its error and the code 1
  abbrev pub shown : Shell (Link V) → Result Reply → Command (Link V)
  shown sh (ok reply) t = (0, print (json (into_any (enc reply))) t)
  shown sh (err e) t =
      let x = sent_error e in
      (
        1,
        print_details sh (details_json x.details)
            (print (complaint (concat ("error: " ∷ x.message ∷ []))) t),
      )

  -- the codes of the errors that it can answer with are in the range of `int`
  abbrev pub reply_fits : Result Reply → Bool
  reply_fits (ok reply) = true
  reply_fits (err e) = code_fits (some (sent_error e))

  abbrev error_response : GoError → Response Reply
  error_response e = record {
    jsonrpc = "2.0";
    id = num (pos 1);
    result = none;
    error = some (sent_error e);
  }

  module _ (sh : Shell (Link V)) where
    handled :
        (method : String) (params : Option Json) (h : Handler V) (s s' : State V) (r : Result Reply)
        → find_handler method (register_handlers env) ≡ some h
        → h params s ≡ some (r, s')
        → dispatch env (ok (encode_request (new_request (num (pos 1)) method params))) s
          ≡ respond (num (pos 1)) (some (r, s'))
    unfolding dispatch dispatch_request route
    handled method params h s s' r found done =
        rw
          (
            decode_request-encode_request (new_request (num (pos 1)) method params) first_id,
            found,
            done,
          )
          refl

    -- A request of the command line is answered by the handler of its method, and what the handler
    -- returns is printed.
    pub request_handled :
        (method : String) (params : Option Json) (h : Handler V) (s s' : State V) (r : Result Reply)
        (os : List Output)
        → find_handler method (register_handlers env) ≡ some h
        → h params s ≡ some (r, s')
        → reply_fits r ≡ true
        → request (local_shell sh) method params (record { world = resting s; out = os })
          ≡ shown sh r (record { world = resting s'; out = os })
    unfolding request handle_response respond
    request_handled method params h s s' (ok reply) os found done fits =
        rw
          (call_answers method params s s' (new_response (num (pos 1)) reply)
            (handled method params h s s' (ok reply) found done) refl)
          refl
    request_handled method params h s s' (err e) os found done fits =
        rw
          (call_answers method params s s' (error_response e)
            (handled method params h s s' (err e) found done) fits)
          refl

  -- the connection is closed at the end
  abbrev pub hung_up : Shell (Link V) → ℕ × Console (Link V) → ℕ × Console (Link V)
  hung_up sh (code, t) = (code, record t { world = sh.hang_up t.world })

  module _ (sh : Shell (Link V)) where
    -- A command whose words are a request sends it over a connection of its own.
    pub subcommand_asks :
        (command : String) (plan : String → List String → Plan) (a : String) (args : List String)
        (method : String) (params : Option Json) (t : Console (Link V))
        → is_help a ≡ false
        → plan a args ≡ ask method params
        → subcommand (local_shell sh) command plan (a ∷ args) t
          ≡ hung_up sh (request (local_shell sh) method params t)
    unfolding subcommand with_daemon ensure_daemon dial carry_out
    subcommand_asks command plan a args method params t word planned = rw (word, planned) refl
