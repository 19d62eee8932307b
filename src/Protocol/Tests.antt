-- ===== src/Protocol/Tests.antt =====
-- A request to connect.
use ios_pilot.Base.{◌≡◌, some}
use ios_pilot.Base.Int.{pos}
use ios_pilot.Errors.{ok}
use ios_pilot.Json.{num, str, obj, field, end}
use ios_pilot.Json.Number.{first_id}
use ios_pilot.Protocol.{Request, new_request, decode_request, encode_request}
use ios_pilot.Protocol.Wire.{decode_request-encode_request}

abbrev sample : Request
sample = new_request (num (pos 1)) "device.connect" (some (obj (field "udid" (str "A1") end)))

sample_decoded : decode_request (ok (encode_request sample)) ≡ ok sample
sample_decoded = decode_request-encode_request sample first_id
