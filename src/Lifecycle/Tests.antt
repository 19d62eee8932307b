-- ===== src/Lifecycle/Tests.antt =====
-- A daemon on a machine with one file and one lock.
use ios_pilot.Base.{
  true, List, arith, ℕ, ◌+◌, ◌≡◌, ◌≢◌, refl, ap, String, false, Option, none, some, [], ◌∷◌, nat_eq,
  if◌then◌else◌,
}
use ios_pilot.Base.Int.{pos}
use ios_pilot.Errors.{errorf, Result, ok, err}
use ios_pilot.Config.{default}
use ios_pilot.Lifecycle.{Os, acquire_lock, locked, release_lock}
use ios_pilot.Lifecycle.Pid.{KeepsFile}
use ios_pilot.Lifecycle.Lock.{Flocks, played, AllFail, attempt, elsewhere, acquire_lock_excludes}
use ios_pilot.Lifecycle.Idle.{new_idle_timer, requests_after, silence, idle_expires}
use ios_pilot.Lifecycle.Listener.{Net, new_server, begin_stop}
use ios_pilot.Lifecycle.Serve.{
  Host, Serving, exited, serving, quiet, request, signal, connects, panics, panicked, Event, boot,
  run, removals, lock_path,
}
use ios_pilot.Lifecycle.Process.{second_daemon_leaves, idle_process_stays}

-- the text of the PID file, and the handle that holds the lock
record Machine : Type 0 where
  file : String
  holder : Option ℕ

abbrev fresh : Option ℕ → ℕ
fresh none = 0
fresh (some h) = h + 1

abbrev without : ℕ → Option ℕ → Option ℕ
without f none = none
without f (some h) = if nat_eq h f then none else some h

abbrev flock : ℕ → Option ℕ → Machine → Result (Unit {0}) × Machine
flock f none m = (ok tt, record m { holder = some f })
flock f (some h) m =
    (if nat_eq h f then ok tt else err (errorf "resource temporarily unavailable"), m)

abbrev os : Os Machine
os = record {
  pid = pos 4711;
  quote = λ s. s;
  read_file = λ _ m. (ok m.file, m);
  write_file = λ _ s m. (ok tt, record m { file = s });
  remove = λ _ m. record m { file = "" };
  kill = λ _ _ m. (ok tt, m);
  open_lock = λ _ m. (ok (fresh m.holder), m);
  flock = λ f m. flock f m.holder m;
  unlock = λ f m. record m { holder = without f m.holder };
  close_file = λ f m. record m { holder = without f m.holder };
}

abbrev idle_machine : Machine
idle_machine = record { file = ""; holder = none }

os-KeepsFile : (path : String) → KeepsFile os path
os-KeepsFile path = record { read_back = λ s w w' e. ground (arith, e) }

fresh-ne : (o : Option ℕ) → o ≢ some (fresh o)
fresh-ne none e = cc
fresh-ne (some h) e = ground (arith, e)

os-Flocks : (path : String) → Flocks os path (λ m. m.holder)
os-Flocks path = record {
  opened = λ w w' f e. ground (arith, e, fresh-ne w.holder);
  not_opened = λ w h. cc;
  taken = λ w f free done. ground (arith, free);
  refused = λ w f h held other. ground (arith, held, λ (p : h ≡ f). other (ap some p));
  unlocked = λ w f held. ground (arith, held);
  closed_free = λ w f free. ground (arith, free);
  closed_other = λ w f h held other. ground (arith, held, λ (p : h ≡ f). other (ap some p));
}

idle_expires_example :
    (silence (20 ∷ 15 ∷ []) (requests_after (10 ∷ 29 ∷ []) (new_idle_timer 30 100))).expired ≡ 1
idle_expires_example =
    idle_expires 30 100 (10 ∷ 29 ∷ []) (20 ∷ 15 ∷ []) (omega arith) (omega arith, (omega arith, tt))

abbrev with_pid : Machine
with_pid = record { file = "4711\n"; holder = none }

abbrev locked_machine : Machine
locked_machine = record { file = ""; holder = some 0 }

-- two daemons are started, and the PID file is removed in between
acquire_lock_excludes_example :
    let m =
      (played os "pilot.lock"
        (λ m. m.holder)
        (attempt ∷ elsewhere (os.remove "pilot.pid") ∷ attempt ∷ [])
        locked_machine) in
    (idle_machine.holder ≡ none)
    × (locked_machine.holder ≡ some 0)
    × AllFail os "pilot.lock" (λ x. x.holder) m.0
    × (m.1.holder ≡ some 0)
    × ((release_lock os 0 m.1).holder ≡ none)
unfolding acquire_lock locked
acquire_lock_excludes_example =
    acquire_lock_excludes os "pilot.lock" (λ m. m.holder) (os-Flocks "pilot.lock") idle_machine
      locked_machine 0 (attempt ∷ elsewhere (os.remove "pilot.pid") ∷ attempt ∷ []) refl
      ((λ w. refl), tt)

abbrev net : Net Machine
net = record { listen = λ _ m. (ok 5, m); close_listener = λ _ m. m }

abbrev host : Host Machine
unfolding default
host = record {
  os = os;
  net = net;
  config_dir = "/home/ann/.config/ios-pilot";
  mkdir_all = λ _ m. (ok tt, m);
  load = λ m. ((default "/home/ann", none), m);
  home = "/home/ann";
  parse_duration = λ _. some 30;
  half_hour = 30;
  now = 0;
}

second_daemon_leaves_example :
    (boot host locked_machine ≡ (
      exited 1,
      "error: another daemon is already running" ∷ [],
      (acquire_lock os (lock_path host) locked_machine).1,
    ))
    × ((acquire_lock os (lock_path host) locked_machine).1.holder ≡ some 0)
unfolding host
second_daemon_leaves_example =
    second_daemon_leaves host (λ m. m.holder) locked_machine locked_machine 0
      (os-Flocks (lock_path host)) refl refl

abbrev daemon : Serving
unfolding default new_idle_timer
daemon = record {
  lock = 0;
  config = default "/home/ann";
  log_manager = record {
    buffer = record { entries = []; size = 0; head = 0; count = 0 };
    udid = "";
    running = false;
    subscribers = [];
    channels = [];
  };
  server = record (new_server "/home/ann/.config/ios-pilot/pilot.sock") { listener = some 5 };
  timer = new_idle_timer 30 0;
  conns = 0;
  waiting = 0;
  accepting = true;
  signalled = false;
}

abbrev serving_machine : Machine
serving_machine = record { file = "4711\n"; holder = some 0 }

-- two clients, a request of one of them, and a silence after it that is longer than the timeout
abbrev served : List Event
served = connects ∷ connects ∷ request 10 ∷ quiet 40 ∷ []

idle_process_stays_example :
    let closed = begin_stop os net daemon.server serving_machine in
    (sv' : Serving) × (run host (quiet 40 ∷ []) daemon serving_machine
      ≡ (serving sv', if nat_eq 0 0 then removals host (0 + 1) daemon.server closed else closed))
    × (sv'.lock ≡ 0)
    × (sv'.accepting ≡ false)
    × (sv'.timer.expired ≡ 0 + 1)
unfolding new_idle_timer daemon
idle_process_stays_example =
    idle_process_stays host 40 30 0 daemon serving_machine
      (record { long = refl; due = refl; count = refl }) (omega arith) refl

-- a request whose handler panics ends the daemon, and its PID file and its lock are left
ends_by_panic :
    run host (connects ∷ panics 10 ∷ signal ∷ []) daemon serving_machine
    ≡ (panicked, serving_machine)
unfolding run daemon new_idle_timer
ends_by_panic = refl
