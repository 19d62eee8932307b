-- ===== src/Errors.antt =====
-- Errors (internal/protocol/errors.go and the type Error of internal/protocol/jsonrpc.go).
-- A Go function that returns `(T, error)` returns a `Result T`.
use ios_pilot.Base.{String, Option, [], ◌∷◌, Bool, true, false}
use ios_pilot.Base.Int.{ℤ, negsuc}
use ios_pilot.Base.Text.{concat}

pub record ErrorDef : Type 0 where
  pub code : ℤ
  pub message : String

-- `Data` is nil or the text of an error, wherever the program makes one.
pub record RpcError : Type 0 where
  pub code : ℤ
  pub message : String
  pub details : Option String

abbrev pub to_error : ErrorDef → Option String → RpcError
to_error e d = record { code = e.code; message = e.message; details = d }

-- `negsuc n` is -(n + 1)
abbrev pub err_device_not_connected : ErrorDef
err_device_not_connected = record { code = negsuc 32000; message = "Device not connected" }

abbrev pub err_device_not_found : ErrorDef
err_device_not_found = record { code = negsuc 32001; message = "Device not found" }

abbrev pub err_wda_unavailable : ErrorDef
err_wda_unavailable = record { code = negsuc 32002; message = "WDA unavailable" }

abbrev pub err_wda_not_installed : ErrorDef
err_wda_not_installed = record { code = negsuc 32003; message = "WDA not installed" }

abbrev pub err_operation_timeout : ErrorDef
err_operation_timeout = record { code = negsuc 32004; message = "Operation timeout" }

abbrev pub err_app_not_found : ErrorDef
err_app_not_found = record { code = negsuc 32005; message = "App not found" }

abbrev pub err_tunnel_failed : ErrorDef
err_tunnel_failed = record { code = negsuc 32006; message = "Tunnel setup failed" }

abbrev pub err_invalid_request : ErrorDef
err_invalid_request = record { code = negsuc 32599; message = "Invalid request" }

abbrev pub err_method_not_found : ErrorDef
err_method_not_found = record { code = negsuc 32600; message = "Method not found" }

-- The errors of Go that the program makes: a `*protocol.Error`, one made by fmt.Errorf with no
-- wrapped error (or that a library made), and fmt.Errorf("<context>: %w", e).
pub data GoError : Type 0 where
  protocol : RpcError → GoError
  errorf : String → GoError
  wrapped : String → GoError → GoError

-- the method `Error()`
abbrev pub error_text : GoError → String
error_text (protocol e) = e.message
error_text (errorf s) = s
error_text (wrapped context e) = concat (context ∷ ": " ∷ error_text e ∷ [])

pub data Result {ℓ} (A : Type ℓ) : Type ℓ where
  ok : A → Result A
  err : GoError → Result A

abbrev pub is_ok {ℓ} : {A : Type ℓ} → Result A → Bool
is_ok (ok a) = true
is_ok (err e) = false

-- A call that acts on the world: the drivers, and what they reach.
abbrev pub Call : Type 0 → Type 0 → Type 0
Call W A = W → Result A × W

-- `fmt.Errorf("<context>: %w", err)` where there is an error
abbrev pub in_context {ℓ} : {A : Type ℓ} → String → Result A → Result A
in_context context (ok a) = ok a
in_context context (err e) = err (wrapped context e)

-- the next call where the first one gave no error
abbrev pub and_then : {A B W : Type 0} → Result A × W → (A → Call W B) → Result B × W
and_then (ok a, w) next = next a w
and_then (err e, w) next = (err e, w)

-- and where it gave one
abbrev pub or_else : {A W : Type 0} → Result A × W → Call W A → Result A × W
or_else (ok a, w) next = (ok a, w)
or_else (err e, w) next = next w
