-- ===== src/Cli/Tests.antt =====
-- Commands against a daemon with the laboratory's phone, and against a machine that starts one.
use ios_pilot.Base.{
  arith, ℕ, zero, suc, ◌≡◌, refl, String, none, some, List, [], ◌∷◌, replicate, leb, ltb,
  if◌then◌else◌,
}
use ios_pilot.Base.Int.{pos}
use ios_pilot.Base.Text.{itoa}
use ios_pilot.Errors.{errorf, Result, ok, err}
use ios_pilot.Json.{Json, str, num, obj, end, field, into_struct, into_fields, into_string}
use ios_pilot.Client.{
  Conn, Client, Scanned, line, closed, call, ask, sent, waiting, scanned, decode_response,
  assign_response,
}
use ios_pilot.Ui as Ui
use ios_pilot.Lab.{World}
use ios_pilot.Driver.{LogEntry}
use ios_pilot.Logs.Ring.{zero_entry}
use ios_pilot.Daemon.{State, Reply}
use ios_pilot.Daemon.Phone.{env, full_phone, after}
use ios_pilot.Lifecycle.{Os, write_pid_file}
use ios_pilot.Cli.{
  complaint, json, Command, Console, Shell, dial, start_daemon_process, ensure_daemon, config_dir,
}
use ios_pilot.Cli.Commands.{cmd_act}
use ios_pilot.Cli.Log.{LogOptions, poll}
use ios_pilot.Cli.Control.{cmd_daemon_stop}
use ios_pilot.Cli.Local.{Link, resting, local_shell, hung_up, shown}
use ios_pilot.Cli.Gestures.{tap, perform, gesture_reply, cmd_act_performs}
use ios_pilot.Cli.Agent.{TunnelPackage}
use ios_pilot.Cli.Run.{run}
use ios_pilot.Cli.Guarded.{guarded}
use ios_pilot.Cli.Sends.{requests_are_handled}
use ios_pilot.Cli.Options.{once}
use ios_pilot.Cli.Waiting.{after_tries, ensure_daemon_waits}
use ios_pilot.Cli.Follows.{Polls, here, again, ended, poll_ends_by_error}
use ios_pilot.Cli.Stops.{cmd_daemon_stop_signals}

-- a machine: how many dials fail before the socket answers, the answers that are left for the client,
-- and the text of the PID file
record Machine : Type 0 where
  failing : ℕ
  answers : List Json
  file : String

abbrev dial_in : ℕ → Machine → Result (Unit {0}) × Machine
dial_in zero m = (ok tt, m)
dial_in (suc n) m = (err (errorf "connection refused"), record m { failing = n })

abbrev os : {W : Type 0} → Os W
os = record {
  pid = pos 4711;
  quote = λ s. s;
  read_file = λ _ m. (err (errorf "no such file"), m);
  write_file = λ _ s m. (ok tt, m);
  remove = λ _ m. m;
  kill = λ _ _ m. (ok tt, m);
  open_lock = λ _ m. (ok 0, m);
  flock = λ f m. (ok tt, m);
  unlock = λ f m. m;
  close_file = λ f m. m;
}

abbrev scan_next : List Json → Machine → Scanned × Machine
scan_next [] m = (closed, m)
scan_next (j ∷ js) m = (line (ok j), record m { answers = js })

abbrev conn : Conn Machine
conn = record {
  send = λ _ m. (ok tt, m);
  set_deadline = λ m. (ok tt, m);
  scan = λ m. scan_next m.answers m;
  clear_deadline = λ m. m;
}

abbrev disk : Os Machine
disk = record os {
  read_file = λ _ m. (ok m.file, m);
  write_file = λ _ s m. (ok tt, record m { file = s });
}

abbrev sh : Shell Machine
sh = record {
  config_dir_env = "";
  home = "/home/ann";
  os = disk;
  dial_unix = λ _ m. dial_in m.failing m;
  conn = conn;
  hang_up = λ m. m;
  sleep = λ _ m. m;
  mkdir_all = λ _ m. (ok tt, m);
  executable = λ m. (ok "/usr/bin/ios-pilot", m);
  start = λ _ _ m. (ok tt, m);
}

-- a shell over the link to the laboratory's daemon
abbrev link_shell : Shell (Link World)
link_shell = record {
  config_dir_env = "/tmp/pilot";
  home = "";
  os = os;
  dial_unix = λ _ m. (ok tt, m);
  conn = record {
    send = λ _ m. (ok tt, m);
    set_deadline = λ m. (ok tt, m);
    scan = λ m. (closed, m);
    clear_deadline = λ m. m;
  };
  hang_up = λ m. m;
  sleep = λ _ m. m;
  mkdir_all = λ _ m. (ok tt, m);
  executable = λ m. (ok "/usr/bin/ios-pilot", m);
  start = λ _ _ m. (ok tt, m);
}

abbrev enc : Reply → Json
enc r = str "reply"

-- what the controller of the phone in full mode did for the tap
abbrev tapped : Result (Unit {0}) × World
tapped = perform env.wda_client (tap (pos 60) (pos 40)) full_phone after.world

cmd_act_performs_example :
    cmd_act
      (local_shell env enc link_shell)
      ("tap" ∷ "60" ∷ "40" ∷ [])
      (record { world = resting env enc after; out = [] })
    ≡ hung_up env enc link_shell (
        shown env enc link_shell
          (gesture_reply env (tap (pos 60) (pos 40)) tapped.0)
          (record { world = resting env enc (record after { world = tapped.1 }); out = [] }))
unfolding env Ui.tap itoa
cmd_act_performs_example =
    cmd_act_performs env enc (tap (pos 60) (pos 40)) link_shell after [] tapped.0 tapped.1 refl refl
      refl

abbrev serves : Command Machine
serves t = (0, t)

abbrev tunnels : TunnelPackage Machine
tunnels = record { new_pair_record_manager = λ m. (ok tt, m); update_tunnels = λ _ m. (ok tt, m) }

-- a machine whose daemon answers at once
abbrev awake : Console Machine
awake = record {
  world = record { failing = 0; answers = obj (field "result" (str "ok") end) ∷ []; file = "" };
  out = [];
}

requests_are_handled_example :
    run (guarded env sh) serves tunnels [] 1 ("wda" ∷ "restart" ∷ []) awake
    ≡ run sh serves tunnels [] 1 ("wda" ∷ "restart" ∷ []) awake
requests_are_handled_example =
    requests_are_handled env sh serves tunnels [] 1 ("wda" ∷ "restart" ∷ []) awake

abbrev errors : LogOptions
errors = once 19 none (some "error") (some "timeout")

abbrev entry : LogEntry
entry = record {
  timestamp = "";
  process = "Shop";
  pid = "12";
  level = "error";
  message = "timeout";
  raw = "";
}

-- one entry has come
abbrev logged : State World
logged = record after {
  log_manager = record (after.log_manager) {
    buffer = record { entries = entry ∷ replicate 3 zero_entry; size = 4; head = 1; count = 1 };
  };
}

-- a machine whose socket answers the third dial after the first
abbrev slow : Machine
slow = record { failing = 3; answers = []; file = "" }

abbrev two_left : Machine
two_left = record { failing = 2; answers = []; file = "" }

ensure_daemon_waits_example : ensure_daemon sh slow ≡ (
    if ltb 2 50 then (ok tt, after_tries sh 3 two_left) else (
      err (errorf "daemon started but socket not available after 5s"),
      after_tries sh 2 two_left,
    ))
unfolding dial start_daemon_process config_dir after_tries
ensure_daemon_waits_example =
    ensure_daemon_waits sh 2 slow two_left refl refl (omega arith) (refl, (refl, tt)) (λ _. refl)

-- two answers and then an error
abbrev entries : Json
entries =
    obj (field "jsonrpc" (str "2.0") (field "id" (num (pos 1)) (field "result" (str "entry") end)))

abbrev talking : Console Machine
talking = record {
  world = record { failing = 0; answers = entries ∷ entries ∷ []; file = "" };
  out = [];
}

abbrev silent : Console Machine
silent = record {
  world = record { failing = 0; answers = []; file = "" };
  out = json (some (str "entry")) ∷ json (some (str "entry")) ∷ [];
}

abbrev client : ℕ → Client
client n = record { next_id = n }

talking-Polls : Polls sh none 2 (client 0) talking (client 2) silent
unfolding call ask sent waiting scanned decode_response assign_response into_struct into_fields
    into_string
talking-Polls = again refl (again refl (here (client 2) silent))

poll-ended : poll sh 5 none (client 0) talking ≡ (
    if leb 5 2 then none else ended sh none "connection closed before response" (client 2) silent)
unfolding call ask sent waiting scanned
poll-ended = poll_ends_by_error sh none 5 "connection closed before response" talking-Polls refl

abbrev stopped : Machine
stopped = record { failing = 3; answers = []; file = "4711\n" }

cmd_daemon_stop_signals_example :
    cmd_daemon_stop sh (record { world = stopped; out = [] })
    ≡ (0, record { world = stopped; out = complaint "sent SIGTERM to daemon (PID 4711)" ∷ [] })
unfolding write_pid_file itoa
cmd_daemon_stop_signals_example =
    cmd_daemon_stop_signals sh (pos 4711) slow stopped []
      (record { read_back = λ s w w' e. ground (arith, e) }) refl refl
