-- ===== src/Lifecycle/Serve.antt =====
-- `runDaemonServe` (internal/cli/root.go): the daemon's process from its start to
-- the signal that ends it.
use ios_pilot.Base.{
  zero, suc, ◌+◌, Bool, true, false, nat_eq, ℕ, String, Option, none, some, List, [], ◌∷◌, ◌++◌,
  ltb, if◌then◌else◌,
}
use ios_pilot.Base.Text.{concat}
use ios_pilot.Errors.{GoError, error_text, Result, ok, err, Call}
use ios_pilot.Config.{Config, default}
use ios_pilot.Logs.Manager as Manager
use ios_pilot.Logs.Manager.{LogManager, new_log_manager}
use ios_pilot.Lifecycle.{Os, acquire_lock, release_lock, write_pid_file, remove_pid_file}
use ios_pilot.Lifecycle.Idle.{IdleTimer, new_idle_timer, pass, reset, stop}
use ios_pilot.Lifecycle.Listener.{Net, Server, new_server, start, begin_stop, end_stop}

-- The process: `load` is what config.Load gives, with the configuration to use; `parse_duration` is
-- time.ParseDuration, none for its error and 0 for a negative duration, which a timer treats alike;
-- `half_hour` is 30 minutes in its unit.
pub record Host (W : Type 0) : Type 0 where
  pub os : Os W
  pub net : Net W
  pub config_dir : String
  pub mkdir_all : String → Call W (Unit {0})
  pub load : W → (Config × Option GoError) × W
  pub home : String
  pub parse_duration : String → Option ℕ
  pub half_hour : ℕ
  pub now : ℕ

-- A daemon that waits for a signal, or after one for its connections. `conns` counts the connections
-- that are open (the wait group of the server), `waiting` the calls of `Stop` that wait for them;
-- no connection is accepted once the listener is closed.
pub record Serving : Type 0 where
  pub lock : ℕ
  pub config : Config
  pub log_manager : LogManager
  pub server : Server
  pub timer : IdleTimer
  pub conns : ℕ
  pub waiting : ℕ
  pub accepting : Bool
  pub signalled : Bool

-- The process ended with a code, it serves, or it panicked.
pub data Process : Type 0 where
  exited : ℕ → Process
  serving : Serving → Process
  panicked : Process

-- What happens to a daemon that serves: time passes; a client connects; a request comes after some
-- time and is answered, or its handler panics; a client hangs up; a signal comes.
pub data Event : Type 0 where
  quiet : ℕ → Event
  connects : Event
  request panics : ℕ → Event
  hangs_up : Event
  signal : Event

-- the lines that are printed on the standard error
abbrev pub Log : Type 0
Log = List String

module _ {W : Type 0} (host : Host W) where
  abbrev pub pid_path : String
  pid_path = concat (host.config_dir ∷ "/pilot.pid" ∷ [])

  abbrev pub lock_path : String
  lock_path = concat (host.config_dir ∷ "/pilot.lock" ∷ [])

  abbrev pub sock_path : String
  sock_path = concat (host.config_dir ∷ "/pilot.sock" ∷ [])

  abbrev duration_of : Option ℕ → ℕ
  duration_of none = host.half_hour
  duration_of (some d) = d

  -- after `Start` of the server; a deferred call runs at the end
  unfoldable pub started : Serving → Result (Unit {0}) → Server → W → Process × Log × W
  started sv (err e) srv w = (
    exited 1,
    concat ("error: start server: " ∷ error_text e ∷ []) ∷ [],
    release_lock host.os sv.lock (remove_pid_file host.os pid_path w),
  )
  started sv (ok _) srv w = (serving (record sv { server = srv }), [], w)

  -- after the PID file is written
  unfoldable pub pid_written : Serving → Result (Unit {0}) → W → Process × Log × W
  unfolding started start release_lock
  pid_written sv (err e) w = (
    exited 1,
    concat ("error: write PID file: " ∷ error_text e ∷ []) ∷ [],
    release_lock host.os sv.lock w,
  )
  pid_written sv (ok _) w =
      let (r, srv, w') = start host.os host.net sv.server w in started sv r srv w'

  -- with the managers that are made from the configuration
  unfoldable pub with_managers : ℕ → Config → Option LogManager → W → Process × Log × W
  unfolding pid_written write_pid_file new_idle_timer
  with_managers lock config none w = (panicked, [], w)
  with_managers lock config (some logs) w =
      let (r, w') = write_pid_file host.os pid_path w in
      pid_written
        (record {
          lock = lock;
          config = config;
          log_manager = logs;
          server = new_server sock_path;
          timer = new_idle_timer (duration_of (host.parse_duration config.idle_timeout)) host.now;
          conns = 0;
          waiting = 0;
          accepting = true;
          signalled = false;
        })
        r w'

  abbrev print : Log → Process × Log × W → Process × Log × W
  print lines (p, log, w) = (p, lines ++ log, w)

  -- a configuration that cannot be loaded is replaced by the defaults
  unfoldable pub configured : ℕ → Config → Option GoError → W → Process × Log × W
  unfolding with_managers new_log_manager default
  configured lock config none w =
      with_managers lock config (new_log_manager config.log_buffer_size) w
  configured lock config (some e) w =
      print (concat ("warning: load config: " ∷ error_text e ∷ " (using defaults)" ∷ []) ∷ []) (
        with_managers lock (default host.home) (new_log_manager (default host.home).log_buffer_size)
          w)

  -- after the lock
  unfoldable pub locked : Result ℕ → W → Process × Log × W
  unfolding configured
  locked (err e) w = (exited 1, "error: another daemon is already running" ∷ [], w)
  locked (ok lock) w = let ((config, e), w') = host.load w in configured lock config e w'

  -- after the directory is there
  unfoldable pub prepared : Result (Unit {0}) → W → Process × Log × W
  unfolding locked acquire_lock
  prepared (err e) w = (exited 1, concat ("error: create config dir: " ∷ error_text e ∷ []) ∷ [], w)
  prepared (ok _) w = let (r, w') = acquire_lock host.os lock_path w in locked r w'

  unfoldable pub boot : W → Process × Log × W
  unfolding prepared
  boot w = let (r, w') = host.mkdir_all host.config_dir w in prepared r w'

  -- the calls of `Stop` that waited remove the socket
  unfoldable pub removals : ℕ → Server → W → W
  unfolding end_stop
  removals zero srv w = w
  removals (suc n) srv w = removals n srv (end_stop host.os host.net srv w)

  -- what `runDaemonServe` has deferred
  unfoldable pub clean_up : ℕ → W → W
  unfolding release_lock
  clean_up lock w = release_lock host.os lock (remove_pid_file host.os pid_path w)

  -- Where no connection is open, the calls of `Stop` return, and that of the signal ends the process.
  unfoldable pub settle : Serving → W → Process × W
  unfolding removals clean_up
  settle sv w =
      let w' = removals sv.waiting sv.server w in
      if nat_eq sv.conns 0
      then if sv.signalled
        then (exited 0, clean_up sv.lock w')
        else (serving (record sv { waiting = 0 }), w')
      else (serving sv, w)

  -- a call of `Stop`
  unfoldable pub stop_server : Serving → W → Process × W
  unfolding settle begin_stop
  stop_server sv w =
      settle (record sv { waiting = sv.waiting + 1; accepting = false })
        (begin_stop host.os host.net sv.server w)

  -- the timer stops the server each time it expires
  unfoldable pub expire : IdleTimer → Serving → W → Process × W
  unfolding stop_server
  expire timer sv w =
      if ltb sv.timer.expired timer.expired
      then stop_server (record sv { timer = timer }) w
      else (serving (record sv { timer = timer }), w)

  -- what follows where the process still serves
  abbrev pub go_on : Process × W → (Serving → W → Process × W) → Process × W
  go_on (exited code, w) next = (exited code, w)
  go_on (panicked, w) next = (panicked, w)
  go_on (serving sv, w) next = next sv w

  -- a request that is answered moves the timer
  abbrev pub answered : Serving → W → Process × W
  answered sv w = (serving (record sv { timer = reset sv.timer }), w)

  -- a client that hangs up, if there is one
  abbrev pub hung_up : ℕ → Serving → W → Process × W
  hung_up zero sv w = (serving sv, w)
  hung_up (suc n) sv w = settle (record sv { conns = n }) w

  -- A panic ends the process at once, and nothing that is deferred is done. There is no request without
  -- a connection, and a further signal only fills the channel of the first.
  unfoldable pub happen : Event → Serving → W → Process × W
  unfolding expire pass reset stop_server settle stop
  happen (quiet n) sv w = expire (pass n sv.timer) sv w
  happen connects sv w =
      (serving (record sv { conns = if sv.accepting then sv.conns + 1 else sv.conns }), w)
  happen (request n) sv w =
      go_on (expire (pass n sv.timer) sv w)
        λ sv' w'. if nat_eq sv'.conns 0 then (serving sv', w') else answered sv' w'
  happen (panics n) sv w =
      go_on (expire (pass n sv.timer) sv w)
        λ sv' w'. if nat_eq sv'.conns 0 then (serving sv', w') else (panicked, w')
  happen hangs_up sv w = hung_up sv.conns sv w
  happen signal sv w =
      if sv.signalled
      then (serving sv, w)
      else stop_server
          (record sv {
            timer = stop sv.timer;
            log_manager = Manager.stop sv.log_manager;
            signalled = true;
          })
          w

  -- the process over the events
  unfoldable pub run : List Event → Serving → W → Process × W
  unfolding happen
  run [] sv w = (serving sv, w)
  run (e ∷ es) sv w = go_on (happen e sv w) (run es)
