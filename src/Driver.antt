-- ===== src/Driver.antt =====
-- The drivers (internal/driver/interfaces.go): the data that they exchange with the managers, and an
-- interface of Go as a record of functions over the state `W` of the world that they act on.
-- A value of `io.Closer` is the number of a handle; its method is `close` of the managers' drivers.
use ios_pilot.Base.{ℕ, String, List, Bool}
use ios_pilot.Base.Int.{ℤ}
use ios_pilot.Errors.{Call}

pub record DeviceInfo : Type 0 where
  pub udid : String
  pub name : String
  pub ios_version : String
  pub product_type : String

pub record AppInfo : Type 0 where
  pub bundle_id : String
  pub name : String
  pub version : String

pub record LogEntry : Type 0 where
  pub timestamp : String
  pub process : String
  pub pid : String
  pub level : String
  pub message : String
  pub raw : String

pub record CrashReport : Type 0 where
  pub id : String
  pub name : String
  pub process : String
  pub timestamp : String
  pub content : String

-- `frame` is [x, y, width, height], `center` is [x, y].
pub record WdaElement : Type 0 where
  pub kind : String
  pub label : String
  pub frame : ℤ × ℤ × ℤ × ℤ
  pub center : ℤ × ℤ

pub record DeviceDriver (W : Type 0) : Type 0 where
  pub list_devices : Call W (List DeviceInfo)
  pub get_device : String → Call W DeviceInfo

pub record AppDriver (W : Type 0) : Type 0 where
  pub list_apps : String → Call W (List AppInfo)
  pub install : String → String → Call W (Unit {0})
  pub uninstall : String → String → Call W (Unit {0})
  pub launch : String → String → Call W ℤ
  pub kill : String → String → Call W (Unit {0})
  pub foreground_app : String → Call W String

-- bytes as numbers
pub record ScreenshotDriver (W : Type 0) : Type 0 where
  pub take_screenshot : String → Call W (List ℕ)

pub record CrashDriver (W : Type 0) : Type 0 where
  pub list_crashes : String → Call W (List CrashReport)
  pub get_crash : String → String → Call W CrashReport

pub record TunnelDriver (W : Type 0) : Type 0 where
  pub ensure_tunnel : String → Call W (Unit {0})
  pub is_tunnel_running : String → W → Bool × W
  pub stop_tunnel : String → Call W (Unit {0})
  pub forward_port : String → ℕ → ℕ → Call W ℕ

pub record WdaProcessDriver (W : Type 0) : Type 0 where
  pub start_wda : String → Call W ℕ

pub record WdaDriver (W : Type 0) : Type 0 where
  pub create_session : String → Call W String
  pub status : String → Call W Bool
  pub delete_session : String → String → Call W (Unit {0})
  pub get_element_tree : String → String → Call W (List WdaElement)
  pub get_interactive_elements : String → String → List String → Call W (List WdaElement)
  pub find_element : String → String → String → String → Call W WdaElement
  pub tap : String → String → ℤ → ℤ → Call W (Unit {0})
  pub swipe : String → String → ℤ → ℤ → ℤ → ℤ → Call W (Unit {0})
  pub input_text : String → String → String → Call W (Unit {0})
  pub press_button : String → String → String → Call W (Unit {0})
  pub screenshot : String → String → Call W (List ℕ)
  pub launch_app : String → String → String → Call W (Unit {0})
  pub kill_app : String → String → String → Call W (Unit {0})
