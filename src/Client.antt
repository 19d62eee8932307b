-- ===== src/Client.antt =====
-- `Client` (internal/client/client.go): one request and its response over a connection, which is a
-- parameter. A line that was read is what the parser of JSON makes of it. Values of type `any` keep
-- their integers, where Go rounds those beyond 53 bits.
pub mod Answered
use ios_pilot.Base.{ℕ, ◌+◌, String, Option, none, some, if◌then◌else◌}
use ios_pilot.Base.Int.{ℤ, pos}
use ios_pilot.Errors.{GoError, errorf, wrapped, RpcError, Result, ok, err, Call}
use ios_pilot.Json.{
  Json, null, num, str, obj, Fields, end, field, names, into_string, into_int, into_struct,
}
use ios_pilot.Protocol.{Request, Response, new_request, encode_request}

-- an error as the client decodes it; `Data` is any value, nil for null
pub record ClientError : Type 0 where
  pub code : ℤ
  pub message : String
  pub details : Option Json

pub record ClientResponse : Type 0 where
  pub jsonrpc : String
  pub id : Json
  pub result : Option Json
  pub error : Option ClientError

-- a value into a field of type `any`
abbrev pub into_any : Json → Option Json
into_any null = none
into_any j = some j

unfoldable pub assign_error : String → Json → ClientError → ClientError × Option GoError
assign_error key v p =
    if names key "code"
    then (let (n, e) = into_int "code" v p.code in (record p { code = n }, e))
    else if names key "message"
    then (let (s, e) = into_string "message" v p.message in (record p { message = s }, e))
    else if names key "data"
    then (record p { details = into_any v }, none)
    else (p, none)

abbrev pub no_error : ClientError
no_error = record { code = pos 0; message = ""; details = none }

-- a value into the pointer: null makes it nil, and anything else is decoded into what it points to
unfoldable pub into_error : Json → Option ClientError → Option ClientError × Option GoError
unfolding assign_error
into_error null old = (none, none)
into_error j none = (let (p, e) = into_struct assign_error j no_error in (some p, e))
into_error j (some p₀) = (let (p, e) = into_struct assign_error j p₀ in (some p, e))

unfoldable pub assign_response : String → Json → ClientResponse → ClientResponse × Option GoError
unfolding into_error
assign_response key v p =
    if names key "jsonrpc"
    then (let (s, e) = into_string "jsonrpc" v p.jsonrpc in (record p { jsonrpc = s }, e))
    else if names key "id"
    then (record p { id = v }, none)
    else if names key "result"
    then (record p { result = into_any v }, none)
    else if names key "error"
    then (let (x, e) = into_error v p.error in (record p { error = x }, e))
    else (p, none)

abbrev pub no_response : ClientResponse
no_response = record { jsonrpc = ""; id = null; result = none; error = none }

unfoldable pub decode_response : Result Json → Result ClientResponse
unfolding assign_response
decode_response (err e) = err (wrapped "decode response" e)
decode_response (ok j) =
    let (p, e) = into_struct assign_response j no_response in
    elim e [ none ↦ ok p | some x ↦ err (wrapped "decode response" x) ]

-- what the scanner of the connection gives
pub data Scanned : Type 0 where
  line : Result Json → Scanned
  failed : GoError → Scanned
  closed : Scanned

pub record Conn (W : Type 0) : Type 0 where
  pub send : Json → Call W (Unit {0})
  pub set_deadline : Call W (Unit {0})
  pub scan : W → Scanned × W
  pub clear_deadline : W → W

-- the counter of the requests
pub record Client : Type 0 where
  pub next_id : ℕ

module _ {W : Type 0} (conn : Conn W) where
  -- `Call` after the line is read
  unfoldable pub scanned : Scanned → Call W ClientResponse
  unfolding decode_response
  scanned (line l) w = (decode_response l, conn.clear_deadline w)
  scanned (failed e) w = (err (wrapped "read response" e), w)
  scanned closed w = (err (errorf "connection closed before response"), w)

  -- after the deadline is set
  unfoldable pub waiting : Result (Unit {0}) → Call W ClientResponse
  unfolding scanned
  waiting (err e) w = (err (wrapped "set deadline" e), w)
  waiting (ok _) w = let (s, w') = conn.scan w in scanned s w'

  -- after the request is sent
  unfoldable pub sent : Result (Unit {0}) → Call W ClientResponse
  unfolding waiting
  sent (err e) w = (err (wrapped "send request" e), w)
  sent (ok _) w = let (r, w') = conn.set_deadline w in waiting r w'

  -- with the parameters that were marshalled
  unfoldable pub ask : ℕ → String → Result (Option Json) → Call W ClientResponse
  unfolding sent
  ask id method (err e) w = (err (wrapped "marshal params" e), w)
  ask id method (ok params) w =
      let (r, w') = conn.send (encode_request (new_request (num (pos id)) method params)) w in
      sent r w'

  unfoldable pub call :
      String → Result (Option Json) → Client → W → Result ClientResponse × Client × W
  unfolding ask
  call method params c w =
      let id = c.next_id + 1 in
      let (r, w') = ask id method params w in (r, record { next_id = id }, w')

-- what the encoder of JSON makes of a `Response`, with the encoding of its result
abbrev pub error_json : RpcError → Json
error_json e = obj (
    field "code" (num e.code) (
      field "message" (str e.message)
        (elim e.details [ none ↦ end | some text ↦ field "data" (str text) end ])))

unfoldable pub encode_response : {R : Type 0} → (R → Json) → Response R → Json
encode_response enc resp = obj (
    field "jsonrpc" (str resp.jsonrpc) (
      field "id" resp.id (elim resp.result [
        | some r ↦
            field "result" (enc r)
              (elim resp.error [ none ↦ end | some e ↦ field "error" (error_json e) end ])
        | none ↦ elim resp.error [ none ↦ end | some e ↦ field "error" (error_json e) end ]
      ])))
