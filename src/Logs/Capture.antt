-- ===== src/Logs/Capture.antt =====
-- The capture of logs (`Start` and `Stop` of internal/core/log_manager.go): each `Start` makes a
-- channel, a goroutine in which the syslog driver fills it and one that drains it, and they go on side
-- by side with the goroutines of earlier captures. The driver does not close its channel.
pub mod Streams
pub mod Runs
mod Tests
use ios_pilot.Base.{
  ℕ, zero, suc, String, Bool, true, false, ◌&&◌, Option, none, some, List, [], ◌∷◌, ◌++◌, length,
  ltb, if◌then◌else◌,
}
use ios_pilot.Driver.{LogEntry}
use ios_pilot.Logs.Manager.{LogManager, start, stop, ingest}

-- What one `Start` made: whether its context is cancelled, its two goroutines run, and its channel.
-- `sent` and `drained` record what went through the channel.
pub record Session : Type 0 where
  pub udid : String
  pub cancelled : Bool
  pub streaming : Bool
  pub draining : Bool
  pub queue : List LogEntry
  pub sent : List LogEntry
  pub drained : List LogEntry

-- the manager, the captures with the newest first, and the record of what was stored
pub record Capture : Type 0 where
  pub manager : LogManager
  pub sessions : List Session
  pub history : List LogEntry

abbrev pub capacity : ℕ
capacity = 256

abbrev pub new_session : String → Session
new_session udid = record {
  udid = udid;
  cancelled = false;
  streaming = true;
  draining = true;
  queue = [];
  sent = [];
  drained = [];
}

-- the step of one capture, by its number
unfoldable pub change : ℕ → (Session → Session) → List Session → List Session
change k f [] = []
change zero f (s ∷ ss) = f s ∷ ss
change (suc k) f (s ∷ ss) = s ∷ change k f ss

-- `lm.cancel`, which belongs to the newest capture
unfoldable pub cancel_newest : List Session → List Session
cancel_newest [] = []
cancel_newest (s ∷ ss) = record s { cancelled = true } ∷ ss

unfoldable pub start_capture : String → Capture → Capture
unfolding start
start_capture udid c =
    if c.manager.running
    then c
    else record c { manager = start udid c.manager; sessions = new_session udid ∷ c.sessions }

unfoldable pub stop_capture : Capture → Capture
unfolding stop cancel_newest
stop_capture c =
    if c.manager.running
    then record c { manager = stop c.manager; sessions = cancel_newest c.sessions }
    else c

-- the driver puts an entry into the channel, if there is room; otherwise it waits
unfoldable pub send_entry : LogEntry → Session → Session
send_entry e s =
    if s.streaming && ltb (length s.queue) capacity
    then record s { queue = s.queue ++ e ∷ []; sent = s.sent ++ e ∷ [] }
    else s

-- StartSyslog returns, for whatever reason: its error is not looked at
abbrev pub end_driver : Session → Session
end_driver s = record s { streaming = false }

-- the goroutine that drains ends once the context is cancelled
unfoldable pub end_drain : Session → Session
end_drain s = if s.cancelled then record s { draining = false } else s

abbrev pub first_of : List LogEntry → Option LogEntry
first_of [] = none
first_of (e ∷ q) = some e

-- the entry that this capture's goroutine receives next
unfoldable pub received : ℕ → List Session → Option LogEntry
received k [] = none
received zero (s ∷ ss) = if s.draining then first_of s.queue else none
received (suc k) (s ∷ ss) = received k ss

abbrev pub taken : List LogEntry → Session → Session
taken [] s = s
taken (e ∷ q) s = record s { queue = q; drained = s.drained ++ e ∷ [] }

abbrev pub take_entry : Session → Session
take_entry s = taken s.queue s

-- and stores it, which may panic
unfoldable pub drain : ℕ → Option LogEntry → Capture → Option Capture
unfolding change
drain k none c = some c
drain k (some e) c = elim (ingest e c.manager) [
  | none ↦ none
  | some lm ↦ some (record {
    manager = lm;
    sessions = change k take_entry c.sessions;
    history = c.history ++ e ∷ [];
  })
]

-- `Start`, `Stop`, and the steps of the goroutines of the capture with this number
pub data Event : Type 0 where
  starts : String → Event
  stops : Event
  sends : ℕ → LogEntry → Event
  driver_ends drains drain_ends : ℕ → Event

unfoldable pub happen : Event → Capture → Option Capture
unfolding start_capture stop_capture change send_entry end_drain drain received
happen (starts udid) c = some (start_capture udid c)
happen stops c = some (stop_capture c)
happen (sends k e) c = some (record c { sessions = change k (send_entry e) c.sessions })
happen (driver_ends k) c = some (record c { sessions = change k end_driver c.sessions })
happen (drains k) c = drain k (received k c.sessions) c
happen (drain_ends k) c = some (record c { sessions = change k end_drain c.sessions })

-- the events in their order, until the program panics
unfoldable pub run : List Event → Capture → Option Capture
unfolding happen
run [] c = some c
run (ev ∷ evs) c = elim (happen ev c) [ none ↦ none | some c' ↦ run evs c' ]
