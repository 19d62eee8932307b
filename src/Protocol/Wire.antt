-- ===== src/Protocol/Wire.antt =====
-- A request on the wire: what the client encodes is what the daemon decodes.
use ios_pilot.Base.{String, ◌≡◌, refl, subst, Option, none, some}
use ios_pilot.Errors.{GoError, Result, ok, err}
use ios_pilot.Json.{Json, into_struct, into_fields, into_string, first_error}
use ios_pilot.Json.Number.{into_value}
use ios_pilot.Protocol.{Request, assign_request, request_of, decode_request, encode_request}

-- the result, with the identifier and the error of decoding it
abbrev decoded : String → String → Option Json → Json × Option GoError → Result Request
decoded version method params (id, e) = elim (first_error e none) [
  | none ↦ ok (record { jsonrpc = version; id = id; method = method; params = params })
  | some x ↦ err x
]

fields_decode :
    (version : String) (id : Json) (method : String) (params : Option Json)
    → let r : Request = record { jsonrpc = version; id = id; method = method; params = params } in
      decode_request (ok (encode_request r)) ≡ decoded version method params (into_value id)
unfolding decode_request request_of encode_request into_struct into_fields assign_request
    into_string
fields_decode version id method none = refl
fields_decode version id method (some j) = refl

pub decode_request-encode_request :
    (r : Request) → into_value r.id ≡ (r.id, none) → decode_request (ok (encode_request r)) ≡ ok r
decode_request-encode_request r h =
    subst (λ p. decode_request (ok (encode_request r)) ≡ decoded r.jsonrpc r.method r.params p) h
      (fields_decode r.jsonrpc r.id r.method r.params)
