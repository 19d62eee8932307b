-- ===== src/Protocol.antt =====
-- The messages of JSON-RPC 2.0 (internal/protocol/jsonrpc.go). A line is what the parser of JSON makes
-- of it. The identifier of a request is a value of JSON that is decoded into `any`, so that its numbers
-- become float64s.
pub mod Wire
mod Tests
use ios_pilot.Base.{String, Option, none, some, if◌then◌else◌}
use ios_pilot.Base.Int.{ℤ}
use ios_pilot.Errors.{GoError, RpcError, ErrorDef, to_error, Result, ok, err}
use ios_pilot.Json.Number.{into_value}
use ios_pilot.Json.{Json, null, num, str, obj, Fields, end, field, names, into_string, into_struct}

-- `Params` is nil where the field is absent.
pub record Request : Type 0 where
  pub jsonrpc : String
  pub id : Json
  pub method : String
  pub params : Option Json

-- a nil `Result` or `Error` is `none`
pub record Response (R : Type 0) : Type 0 where
  pub jsonrpc : String
  pub id : Json
  pub result : Option R
  pub error : Option RpcError

abbrev pub new_request : Json → String → Option Json → Request
new_request id method params = record { jsonrpc = "2.0"; id = id; method = method; params = params }

abbrev pub new_response : {R : Type 0} → Json → R → Response R
new_response id result = record { jsonrpc = "2.0"; id = id; result = some result; error = none }

abbrev pub new_error_response : {R : Type 0} → Json → ErrorDef → Option String → Response R
new_error_response id def details = record {
  jsonrpc = "2.0";
  id = id;
  result = none;
  error = some (to_error def details);
}

abbrev pub empty_request : Request
empty_request = record { jsonrpc = ""; id = null; method = ""; params = none }

-- one field of the object into `Request`, by the names of its tags
unfoldable pub assign_request : String → Json → Request → Request × Option GoError
unfolding into_value
assign_request key v r =
    if names key "jsonrpc"
    then (let (s, e) = into_string "jsonrpc" v r.jsonrpc in (record r { jsonrpc = s }, e))
    else if names key "id"
    then (let (id, e) = into_value v in (record r { id = id }, e))
    else if names key "method"
    then (let (s, e) = into_string "method" v r.method in (record r { method = s }, e))
    else if names key "params"
    then (record r { params = some v }, none)
    else (r, none)

-- a text that is JSON into a `Request`
unfoldable pub request_of : Json → Result Request
unfolding assign_request
request_of j =
    let (r, e) = into_struct assign_request j empty_request in
    elim e [ none ↦ ok r | some x ↦ err x ]

unfoldable pub decode_request : Result Json → Result Request
unfolding request_of
decode_request (err e) = err e
decode_request (ok j) = request_of j

-- the field `params`, which is left out where it is empty
abbrev pub params_field : Option Json → Fields
params_field none = end
params_field (some j) = field "params" j end

-- what the encoder of JSON makes of a `Request`
unfoldable pub encode_request : Request → Json
encode_request r = obj (
    field "jsonrpc" (str r.jsonrpc)
      (field "id" r.id (field "method" (str r.method) (params_field r.params))))
