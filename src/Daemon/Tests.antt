-- ===== src/Daemon/Tests.antt =====
-- Requests to a daemon that has the laboratory's phone.
use ios_pilot.Base.{arith, ◌≡◌, refl, true, Option, none, some, List, [], ◌∷◌, length, String}
use ios_pilot.Base.Int.{pos}
use ios_pilot.Errors.{errorf, Result, ok, err}
use ios_pilot.Json.{Json, num, str, obj, end, field, into_struct, into_string}
use ios_pilot.Protocol.{
  Request, Response, new_request, new_response, encode_request, decode_request,
}
use ios_pilot.Json.Number.{first_id}
use ios_pilot.Protocol.Wire.{decode_request-encode_request}
use ios_pilot.Device.{build_status, connect, establish}
use ios_pilot.Logs.Ring.History.{Represents, new-Represents}
use ios_pilot.Logs.Manager.{start}
use ios_pilot.Daemon.{Reply, device_status}
use ios_pilot.Daemon.Phone.{env, ring, idle, full_phone, after}
use ios_pilot.Daemon.Server.{Incoming, received, unwritten, unread, dispatch, handle_conn}
use ios_pilot.Daemon.Answers.{IsAnswer, line_id, dispatch-IsAnswer}
use ios_pilot.Daemon.Unconnected.{Rejected, dispatch_without_device}
use ios_pilot.Daemon.Preserves.{Preserved}
use ios_pilot.Daemon.Reachable.{written, handle_conn-Preserved}
use ios_pilot.Daemon.Panics.{is_some}
use ios_pilot.Daemon.Survives.{handle_conn_returns, crash_list_panics}
use ios_pilot.Daemon.Restart.{LogsStarted, handle_device_connect-LogsStarted}
use ios_pilot.Daemon.Handlers.{handle_device_connect, connected}

ring-Represents : Represents ring []
ring-Represents = new-Represents 4 (omega arith)

-- a request as a line
abbrev asks : String → Option Json → Request
asks method params = new_request (num (pos 1)) method params

abbrev line : Request → Result Json
line req = ok (encode_request req)

-- no JSON, two requests, and one whose response cannot be written
abbrev lines : List Incoming
lines =
    received (err (errorf "invalid character"))
    ∷ received (line (asks "device.connect" none))
    ∷ received (line (asks "tap" none))
    ∷ unwritten (line (asks "app.list" none))
    ∷ unread
    ∷ []

-- "device.connect" with no parameters, and the laboratory's answer
abbrev connect_line : Result Json
connect_line = line (asks "device.connect" none)

abbrev connected_response : Response Reply
unfolding build_status
connected_response = new_response (num (pos 1)) (device_status (build_status full_phone))

dispatched : dispatch env connect_line idle ≡ some (connected_response, after)
unfolding dispatch handle_device_connect connect establish build_status start env decode_request
    encode_request into_struct into_string connected_response connected
dispatched = refl

dispatch-IsAnswer_example : IsAnswer (line_id (decode_request connect_line)) connected_response
dispatch-IsAnswer_example =
    dispatch-IsAnswer env connect_line idle after connected_response dispatched

served :
    handle_conn env (received connect_line ∷ unread ∷ []) idle
    ≡ some (connected_response ∷ [], after)
unfolding handle_conn
served = rw dispatched refl

handle_conn-Preserved_example :
    Preserved idle after
    × (length (connected_response ∷ []) ≡ written env (received connect_line ∷ unread ∷ []))
handle_conn-Preserved_example =
    handle_conn-Preserved env (received connect_line ∷ unread ∷ []) idle after
      (connected_response ∷ []) served

dispatch_without_device_example : Rejected idle (dispatch env (line (asks "app.list" none)) idle)
dispatch_without_device_example =
    dispatch_without_device env (line (asks "app.list" none)) (asks "app.list" none) idle
      (decode_request-encode_request (asks "app.list" none) first_id) refl refl

handle_conn_returns_example : is_some (handle_conn env lines idle) ≡ true
unfolding decode_request into_struct encode_request into_string
handle_conn_returns_example = handle_conn_returns env lines idle [] ring-Represents refl

crash_list_panics_example : dispatch env (line (asks "log.crash.list" none)) idle ≡ none
unfolding env
crash_list_panics_example =
    crash_list_panics env (line (asks "log.crash.list" none)) (asks "log.crash.list" none) idle refl
      (decode_request-encode_request (asks "log.crash.list" none) first_id) refl

handle_device_connect-LogsStarted_example :
    LogsStarted idle.log_manager
      (handle_device_connect env (some (obj (field "udid" (str "A1") end))) idle)
handle_device_connect-LogsStarted_example =
    handle_device_connect-LogsStarted env (some (obj (field "udid" (str "A1") end))) idle
