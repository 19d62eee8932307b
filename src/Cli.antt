-- ===== src/Cli.antt =====
-- The command line (internal/cli, with `Dial` of internal/client/client.go): a command parses its
-- arguments, connects to the daemon or starts it, sends one request and prints the response. A text of
-- usage is named by its command; what is printed is kept, the newest first.
pub mod Commands
pub mod Log
pub mod Control
pub mod Agent
pub mod Run
pub mod Local
pub mod Methods
pub mod Guarded
pub mod Alike
pub mod Sends
pub mod Options
pub mod Waiting
pub mod Follows
pub mod Stops
mod Tests
pub mod Gestures
use ios_pilot.Base.{ℕ, zero, suc, String, Option, none, some, List, [], ◌∷◌, ◌==◌, if◌then◌else◌}
use ios_pilot.Base.Text.{concat}
use ios_pilot.Errors.{
  GoError, errorf, wrapped, error_text, Result, ok, err, Call, in_context, and_then, or_else,
}
use ios_pilot.Json.{Json}
use ios_pilot.Lifecycle.{Os}
use ios_pilot.Client.{Conn, Client, ClientError, ClientResponse, call}

-- One thing that is printed: the usage of a command (the program's under ""), the version and the
-- guide of WDA on the standard output, a line on the standard error, the details of an error there,
-- and a value of JSON (`printJSON`) on the standard output.
pub data Output : Type 0 where
  usage : String → Output
  version : Output
  guide : Output
  complaint : String → Output
  detail : Json → Output
  json : Option Json → Output

pub record Console (W : Type 0) : Type 0 where
  pub world : W
  pub out : List Output

-- The operating system as the commands use it. `config_dir_env` is IOS_PILOT_CONFIG_DIR, "" where it
-- is not set, `home` the home directory, `dial_unix` and `hang_up` open and close
-- a connection to a socket, `conn` is the open connection; `start` starts a detached process;
-- `sleep` takes milliseconds.
pub record Shell (W : Type 0) : Type 0 where
  pub config_dir_env : String
  pub home : String
  pub dial_unix : String → Call W (Unit {0})
  pub conn : Conn W
  pub hang_up : W → W
  pub sleep : ℕ → W → W
  pub mkdir_all : String → Call W (Unit {0})
  pub executable : Call W String
  pub start : String → List String → Call W (Unit {0})
  pub os : Os W

-- a command: its exit code, and the console after it
abbrev pub Command : Type 0 → Type 0
Command W = Console W → ℕ × Console W

abbrev pub print : {W : Type 0} → Output → Console W → Console W
print o t = record t { out = o ∷ t.out }

unfoldable pub print_all : {W : Type 0} → List Output → Console W → Console W
print_all [] t = t
print_all (o ∷ os) t = print_all os (print o t)

-- print, and leave with this code
abbrev pub leave : {W : Type 0} → ℕ → Output → Command W
leave code o t = (code, print o t)

-- fmt.Fprintf(os.Stderr, "error: %v\n", err), and the code 1
abbrev pub leave_error : {W : Type 0} → GoError → Command W
leave_error e = leave 1 (complaint (concat ("error: " ∷ error_text e ∷ [])))

-- The client of a new connection has sent no request.
abbrev pub new_client : Client
new_client = record { next_id = 0 }

-- for directories with no `.`, `..` or slash at their end
module _ {W : Type 0} (sh : Shell W) where
  unfoldable pub config_dir : String
  config_dir =
      if sh.config_dir_env == ""
      then concat (sh.home ∷ "/.config/ios-pilot" ∷ [])
      else sh.config_dir_env

  abbrev pub sock_path : String
  sock_path = concat (config_dir ∷ "/pilot.sock" ∷ [])

  abbrev pub pid_path : String
  pid_path = concat (config_dir ∷ "/pilot.pid" ∷ [])

module _ {W : Type 0} (sh : Shell W) where
  unfoldable pub dial : String → Call W (Unit {0})
  dial path w =
      let (r, w') = sh.dial_unix path w in (in_context (concat ("dial unix " ∷ path ∷ [])) r, w')

  unfoldable pub start_daemon_process : Call W (Unit {0})
  start_daemon_process w = and_then (sh.mkdir_all (config_dir sh) w) λ _ w₁.
      and_then (let (r, w₂) = sh.executable w₁ in (in_context "resolve executable" r, w₂)) λ exe w₂.
        let (r, w₃) = sh.start exe ("daemon" ∷ "serve" ∷ []) w₂ in (in_context "fork daemon" r, w₃)

  -- the loop of `ensureDaemon`, over the rounds that are left
  unfoldable pub wait_for_socket : ℕ → Call W (Unit {0})
  unfolding dial
  wait_for_socket zero w = (err (errorf "daemon started but socket not available after 5s"), w)
  wait_for_socket (suc n) w = or_else (dial (sock_path sh) (sh.sleep 100 w)) (wait_for_socket n)

  unfoldable pub started : Call W (Unit {0})
  unfolding start_daemon_process wait_for_socket
  started w =
      and_then (let (r, w') = start_daemon_process w in (in_context "start daemon" r, w'))
        λ _ w'. wait_for_socket 50 w'

  unfoldable pub ensure_daemon : Call W (Unit {0})
  unfolding dial started
  ensure_daemon w = or_else (dial (sock_path sh) w) started

  -- the details of an error, where there are some
  abbrev pub print_details : Option Json → Console W → Console W
  print_details none t = t
  print_details (some j) t = print (detail j) t

  abbrev pub show_response : Option Json → Option ClientError → Command W
  show_response result none t = (0, print (json result) t)
  show_response result (some e) t =
      (1, print_details e.details (print (complaint (concat ("error: " ∷ e.message ∷ []))) t))

  unfoldable pub handle_response : Result ClientResponse → Command W
  handle_response (err e) t = leave_error e t
  handle_response (ok resp) t = show_response resp.result resp.error t

  -- `handleResponse(c.Call(method, params))`, the first call of the client
  unfoldable pub request : String → Option Json → Command W
  unfolding handle_response
  request method params t =
      let (r, c, w) = call sh.conn method (ok params) new_client t.world in
      handle_response r (record t { world = w })

  -- the lines from `ensureDaemon` on; the connection is closed at the end
  abbrev pub connected : Command W → Result (Unit {0}) → Command W
  connected body (err e) t = leave_error e t
  connected body (ok _) t =
      let (code, t') = body t in (code, record t' { world = sh.hang_up t'.world })

  unfoldable pub with_daemon : Command W → Command W
  unfolding ensure_daemon
  with_daemon body t =
      let (r, w) = ensure_daemon t.world in connected body r (record t { world = w })
