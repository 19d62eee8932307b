-- ===== src/Goios.antt =====
-- The drivers that call go-ios (internal/driver/goios). The library is a parameter: a device entry is
-- a value of a type of its own, and a connection is a number.
pub mod Device
pub mod App
pub mod Syslog
pub mod Tunnel
pub mod WdaProcess
pub mod Connections
pub mod Closes
pub mod Leaks
pub mod Bundles
pub mod Foreground
pub mod Tunnels
pub mod Ready
mod Tests
use ios_pilot.Base.{ℕ, String, Bool, List}
use ios_pilot.Base.Int.{ℤ}
use ios_pilot.Errors.{GoError, Result, ok, err, Call, in_context}

-- what lockdown says of a device
pub record Values : Type 0 where
  pub device_name : String
  pub product_version : String
  pub product_type : String

-- an application of the installation proxy
pub record Bundle : Type 0 where
  pub identifier : String
  pub name : String
  pub version : String

-- a process of the application service, and one of instruments
pub record AppProcess : Type 0 where
  pub pid : ℤ
  pub path : String
  pub executable_name : String

pub record InfoProcess : Type 0 where
  pub pid : ℤ
  pub name : String
  pub real_app_name : String

-- The calls of go-ios on a world. A function that opens a connection gives its number, and `close`
-- closes it; of the errors of closing the drivers see nothing.
pub record Library (E W : Type 0) : Type 0 where
  pub serial : E → String
  pub supports_rsd : E → Bool
  pub list_devices : Call W (List E)
  pub get_device : String → Call W E
  pub get_values : E → Call W Values
  pub close : ℕ → W → W
  pub installation_proxy : E → Call W ℕ
  pub browse_user_apps : ℕ → Call W (List Bundle)
  pub browse_all_apps : ℕ → Call W (List Bundle)
  pub uninstall_bundle : ℕ → String → Call W (Unit {0})
  pub zip_conduit : E → Call W ℕ
  pub send_file : ℕ → String → Call W (Unit {0})
  pub app_service : E → Call W ℕ
  pub service_launch : ℕ → String → Call W ℤ
  pub service_processes : ℕ → Call W (List AppProcess)
  pub service_kill : ℕ → ℤ → Call W (Unit {0})
  pub process_control : E → Call W ℕ
  pub control_launch : ℕ → String → Call W ℤ
  pub control_kill : ℕ → ℤ → Call W (Unit {0})
  pub device_info_service : E → Call W ℕ
  pub process_list : ℕ → Call W (List InfoProcess)
  pub screenshot_service : E → Call W ℕ
  pub screenshot : ℕ → Call W (List ℕ)
  pub syslog : E → Call W ℕ

-- a call whose error gets a context
abbrev pub call_in : {A W : Type 0} → String → Call W A → Call W A
call_in context call w = let (r, w') = call w in (in_context context r, w')

-- `conn, err := open(); if err != nil { return err }; defer conn.Close()`, and then the body
unfoldable pub using : {E W A : Type 0} → Library E W → Result ℕ × W → (ℕ → Call W A) → Result A × W
using lib (err e, w) body = (err e, w)
using lib (ok conn, w) body = let (r, w') = body conn w in (r, lib.close conn w')
