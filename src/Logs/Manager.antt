-- ===== src/Logs/Manager.antt =====
-- `LogManager` (internal/core/log_manager.go, lines 89 to 251). A channel is a queue in a store, by
-- the number under which it was made, since a subscriber keeps a channel that the manager drops.
-- `none` is a panic of Go. The goroutine that drains the syslog channel is `ingest`, entry by entry.
pub mod Filter
pub mod Channels
pub mod Subscribers
pub mod Delivery
mod Tests
use ios_pilot.Base.{
  ℕ, zero, suc, String, Bool, true, false, not, ◌&&◌, ◌||◌, Option, none, some, List, [], ◌∷◌, ◌++◌,
  ◌==◌, ltb, nat_eq, if◌then◌else◌, length, get_elem?, set,
}
use ios_pilot.Base.Int.{ℤ, pos, negsuc}
use ios_pilot.Base.Text.{codes, contains}
use ios_pilot.Errors.{Result}
use ios_pilot.Driver.{LogEntry, CrashReport, CrashDriver}
use ios_pilot.Logs.Ring.{RingBuffer, new_ring_buffer, add, get_last, get_all}

pub record LogFilter : Type 0 where
  pub bundle_id : String
  pub level : String
  pub search : String

pub record Channel : Type 0 where
  pub buffered : List LogEntry
  pub closed : Bool

pub record LogManager : Type 0 where
  pub buffer : RingBuffer
  pub udid : String
  pub running : Bool
  pub subscribers : List ℕ
  pub channels : List Channel

-- `make([]LogEntry, capacity)` panics for a negative capacity.
unfoldable pub new_log_manager : ℤ → Option LogManager
new_log_manager size = elim (new_ring_buffer size) [
  | none ↦ none
  | some rb ↦
      some (record { buffer = rb; udid = ""; running = false; subscribers = []; channels = [] })
]

unfoldable pub start : String → LogManager → LogManager
start udid lm = if lm.running then lm else record lm { udid = udid; running = true }

unfoldable pub stop : LogManager → LogManager
stop lm = if lm.running then record lm { running = false } else lm

-- the body of the loop of `GetLogs`: `false` is `continue`
unfoldable pub keep : LogFilter → LogEntry → Bool
keep f e =
    if not (f.bundle_id == "") && not (e.process == f.bundle_id)
    then false
    else if not (f.level == "") && not (e.level == f.level)
    then false
    else if not (f.search == "")
    then if not (contains (codes e.message) (codes f.search))
        && not (contains (codes e.raw) (codes f.search))
      then false
      else true
    else true

unfoldable pub filter_entries : LogFilter → List LogEntry → List LogEntry
filter_entries f [] = []
filter_entries f (e ∷ es) = let rest = filter_entries f es in if keep f e then e ∷ rest else rest

-- the entries that `GetLogs` looks at
unfoldable pub considered : ℤ → LogManager → Option (List LogEntry)
considered (pos zero) lm = get_all lm.buffer
considered (pos (suc n)) lm = get_last (pos (suc n)) lm.buffer
considered (negsuc n) lm = get_all lm.buffer

unfoldable pub get_logs : ℤ → LogFilter → LogManager → Option (List LogEntry)
get_logs n f lm = elim (considered n lm) [
  | none ↦ none
  | some all ↦
      if f.bundle_id == "" && f.level == "" && f.search == ""
      then some all
      else some (filter_entries f all)
]

abbrev pub channel_capacity : ℕ
channel_capacity = 100

-- a new channel, and its number
unfoldable pub subscribe : LogManager → ℕ × LogManager
subscribe lm =
    let id = length lm.channels in
    (
      id,
      record lm {
        subscribers = lm.subscribers ++ id ∷ [];
        channels = lm.channels ++ record { buffered = []; closed = false } ∷ [];
      },
    )

-- the slice without the first occurrence
unfoldable pub remove_first : ℕ → List ℕ → List ℕ
remove_first id [] = []
remove_first id (k ∷ ks) = let rest = remove_first id ks in if nat_eq k id then ks else k ∷ rest

unfoldable pub is_subscribed : ℕ → List ℕ → Bool
is_subscribed id [] = false
is_subscribed id (k ∷ ks) = nat_eq k id || is_subscribed id ks

-- `close` of a channel; the store has every channel that was made
unfoldable pub close_channel : ℕ → List Channel → List Channel
close_channel id cs = elim (get_elem? cs id) [
  | none ↦ cs
  | some c ↦ set cs id (record c { closed = true })
]

unfoldable pub unsubscribe : ℕ → LogManager → LogManager
unfolding remove_first is_subscribed close_channel
unsubscribe id lm =
    if is_subscribed id lm.subscribers
    then record lm {
      subscribers = remove_first id lm.subscribers;
      channels = close_channel id lm.channels;
    }
    else lm

-- `select { case ch <- entry: default: }`: a full channel drops the entry, a closed one panics
unfoldable pub send : LogEntry → ℕ → List Channel → Option (List Channel)
send e id cs = elim (get_elem? cs id) [
  | none ↦ none
  | some c ↦
      if c.closed
      then none
      else if ltb (length c.buffered) channel_capacity
      then some (set cs id (record c { buffered = c.buffered ++ e ∷ [] }))
      else some cs
]

-- the loop of `fanOut` over the copy of the subscribers that it took
unfoldable pub deliver : LogEntry → List ℕ → LogManager → Option LogManager
unfolding send
deliver e [] lm = some lm
deliver e (id ∷ ids) lm = elim (send e id lm.channels) [
  | none ↦ none
  | some cs ↦ deliver e ids (record lm { channels = cs })
]

unfoldable pub fan_out : LogEntry → LogManager → Option LogManager
unfolding deliver
fan_out e lm = deliver e lm.subscribers lm

-- one entry of the syslog channel
unfoldable pub ingest : LogEntry → LogManager → Option LogManager
unfolding fan_out
ingest e lm = elim (add e lm.buffer) [
  | none ↦ none
  | some rb ↦ fan_out e (record lm { buffer = rb })
]

-- The driver of crash reports is called without a test: a nil one panics.
module _ {W : Type 0} (crashes : Option (CrashDriver W)) where
  unfoldable pub list_crashes : LogManager → W → Option (Result (List CrashReport) × W)
  list_crashes lm w = elim crashes [ none ↦ none | some c ↦ some (c.list_crashes lm.udid w) ]

  unfoldable pub get_crash : LogManager → String → W → Option (Result CrashReport × W)
  get_crash lm id w = elim crashes [ none ↦ none | some c ↦ some (c.get_crash lm.udid id w) ]
