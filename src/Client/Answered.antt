-- ===== src/Client/Answered.antt =====
-- A response on the wire, and a call to the daemon (internal/client/client.go, internal/daemon/server.go).
use ios_pilot.Base.{arith, ◌+◌, String, ◌≡◌, refl, Bool, true, Option, none, some}
use ios_pilot.Base.Int.{ℤ, pos}
use ios_pilot.Errors.{RpcError, Result, ok}
use ios_pilot.Json.{Json, num, str, into_string, into_int, into_fields, into_struct, fits_int}
use ios_pilot.Protocol.{Response, new_request, encode_request}
use ios_pilot.Client.{
  ClientError, ClientResponse, into_any, assign_error, into_error, assign_response, decode_response,
  encode_response, Conn, Client, line, call, ask, sent, waiting, scanned,
}

-- the text of the details as a value
abbrev pub details_json : Option String → Option Json
details_json none = none
details_json (some text) = some (str text)

abbrev pub seen_error : Option RpcError → Option ClientError
seen_error none = none
seen_error (some e) =
    some (record { code = e.code; message = e.message; details = details_json e.details })

abbrev pub seen_result : {R : Type 0} → (R → Json) → Option R → Option Json
seen_result enc none = none
seen_result enc (some r) = into_any (enc r)

-- The response as the client sees it: a result whose encoding is null is seen as none.
abbrev pub seen : {R : Type 0} → (R → Json) → Response R → ClientResponse
seen enc resp = record {
  jsonrpc = resp.jsonrpc;
  id = resp.id;
  result = seen_result enc resp.result;
  error = seen_error resp.error;
}

-- the code of an error is in the range of `int`
abbrev pub code_fits : Option RpcError → Bool
code_fits none = true
code_fits (some e) = fits_int e.code

error_decode :
    {R : Type 0} (enc : R → Json) (version : String) (id : Json) (result : Option R) (code : ℤ)
    (message : String) (details : Option String)
    → fits_int code ≡ true
    → let e : RpcError = record { code = code; message = message; details = details } in
      let r : Response R = record { jsonrpc = version; id = id; result = result; error = some e } in
      decode_response (ok (encode_response enc r)) ≡ ok (seen enc r)
unfolding decode_response encode_response assign_response into_error assign_error into_struct
    into_fields into_string into_int
error_decode enc version id none code message none h = ground (arith, h)
error_decode enc version id none code message (some text) h = ground (arith, h)
error_decode enc version id (some r) code message none h = ground (arith, h)
error_decode enc version id (some r) code message (some text) h = ground (arith, h)

parts_decode :
    {R : Type 0} (enc : R → Json) (version : String) (id : Json) (result : Option R)
    (error : Option RpcError)
    → code_fits error ≡ true
    → let r : Response R = record { jsonrpc = version; id = id; result = result; error = error } in
      decode_response (ok (encode_response enc r)) ≡ ok (seen enc r)
unfolding decode_response encode_response assign_response into_error assign_error into_struct
    into_fields into_string into_int
parts_decode enc version id none none h = refl
parts_decode enc version id (some r) none h = refl
parts_decode enc version id result (some e) h =
    error_decode enc version id result e.code e.message e.details h

-- The client decodes an encoded response to what it sees of it: the same version, identifier, result
-- and error, but for a result that is encoded as null, which is seen as none. The code of an error has to be in the
-- range of `int`.
pub decode_response-encode_response :
    {R : Type 0} (enc : R → Json) (resp : Response R)
    → code_fits resp.error ≡ true
    → decode_response (ok (encode_response enc resp)) ≡ ok (seen enc resp)
decode_response-encode_response enc resp h =
    parts_decode enc resp.jsonrpc resp.id resp.result resp.error h

module _ {W : Type 0} (conn : Conn W) where
  -- A call of the client whose request is sent and answered with a line returns the decoded line.
  -- The request carries the next number, and the counter is moved on.
  pub call_answered :
      (method : String) (params : Option Json) (c : Client) (w w₁ w₂ w₃ : W) (l : Result Json)
      → conn.send (encode_request (new_request (num (pos (c.next_id + 1))) method params)) w
        ≡ (ok tt, w₁)
      → conn.set_deadline w₁ ≡ (ok tt, w₂)
      → conn.scan w₂ ≡ (line l, w₃)
      → call conn method (ok params) c w
        ≡ (decode_response l, record { next_id = c.next_id + 1 }, conn.clear_deadline w₃)
  unfolding call ask sent waiting scanned
  call_answered method params c w w₁ w₂ w₃ l asked armed read = rw (asked, armed, read) refl
