-- ===== src/Logs/Manager/Tests.antt =====
-- The log manager at a few entries.
use ios_pilot.Base.{
  ℕ, String, ◌≡◌, refl, true, none, some, List, [], ◌∷◌, ◌++◌, arith, zero, suc, ◌+◌, ◌%◌, ◌<◌, ◌≤◌,
  get_elem?, drop, ◌-◌, if◌then◌else◌,
}
use ios_pilot.Base.Int.{pos}
use ios_pilot.Driver.{LogEntry}
use ios_pilot.Logs.Ring.{RingBuffer, zero_entry, requested}
use ios_pilot.Logs.Ring.History.{Represents, new-Represents}
use ios_pilot.Logs.Manager.{
  LogFilter, LogManager, get_logs, subscribe, unsubscribe, is_subscribed, deliver, ingest,
}
use ios_pilot.Logs.Manager.Channels.{queue, enqueue}
use ios_pilot.Logs.Manager.Filter.{passing, get_logs-eq-passing}
use ios_pilot.Logs.Manager.Subscribers.{IsLive, subscribe-IsLive}
use ios_pilot.Logs.Manager.Delivery.{ingest-IsLive, unsubscribe_during_fan_out}

abbrev entry : String → String → LogEntry
entry level message = record zero_entry { level = level; message = message; raw = message }

abbrev small_buffer : RingBuffer
small_buffer = record { entries = zero_entry ∷ zero_entry ∷ []; size = 2; head = 0; count = 0 }

abbrev small : LogManager
small = record { buffer = small_buffer; udid = ""; running = true; subscribers = []; channels = [] }

small-Represents : Represents small_buffer []
small-Represents = new-Represents 2 (omega arith)

small-IsLive : IsLive small
small-IsLive = record { all_open = tt; distinct = tt }

abbrev watched : LogManager
watched = (subscribe small).1

watched-IsLive : IsLive watched
watched-IsLive = subscribe-IsLive small small-IsLive

unsubscribe_during_fan_out_example :
    deliver (entry "error" "boom") watched.subscribers (unsubscribe 0 watched) ≡ none
unfolding subscribe is_subscribed
unsubscribe_during_fan_out_example =
    unsubscribe_during_fan_out (entry "error" "boom") 0 watched watched-IsLive refl

-- three entries in a buffer for two
abbrev three : List LogEntry
three = entry "error" "disk full" ∷ entry "info" "started" ∷ entry "error" "boom" ∷ []

abbrev filled : RingBuffer
filled = record {
  entries = entry "error" "boom" ∷ entry "info" "started" ∷ [];
  size = 2;
  head = 1;
  count = 2;
}

abbrev errors_with_o : LogFilter
errors_with_o = record { bundle_id = ""; level = "error"; search = "oo" }

filled_slots : (i : ℕ) → i < 3 → 3 ≤ i + 2 → get_elem? filled.entries (i % 2) ≡ get_elem? three i
filled_slots zero lt near = absurd (omega arith)
filled_slots (suc zero) lt near = refl
filled_slots (suc (suc zero)) lt near = refl
filled_slots (suc (suc (suc i))) lt near = absurd (omega arith)

filled-Represents : Represents filled three
filled-Represents = record {
  size_pos = omega arith;
  slots = refl;
  head_at = refl;
  count_at = refl;
  slot_at = filled_slots;
}

abbrev filled_manager : LogManager
filled_manager = record small { buffer = filled }

get_logs-eq-passing_example :
    get_logs (pos 5) errors_with_o filled_manager
    ≡ some (passing errors_with_o (drop (3 - requested (pos 5) 2) three))
get_logs-eq-passing_example =
    get_logs-eq-passing (pos 5) errors_with_o filled_manager three filled-Represents

-- the older error has left the buffer
only_the_last :
    passing errors_with_o (drop (3 - requested (pos 5) 2) three) ≡ entry "error" "boom" ∷ []
unfolding requested
only_the_last = refl

ingest-IsLive_example :
    (lm' : LogManager) × (ingest (entry "info" "hi") watched ≡ some lm')
    × IsLive lm'
    × Represents lm'.buffer ([] ++ entry "info" "hi" ∷ [])
    × ((k : ℕ)
        → queue lm'.channels k ≡ (
            if is_subscribed k watched.subscribers
            then enqueue (entry "info" "hi") (queue watched.channels k)
            else queue watched.channels k))
ingest-IsLive_example =
    ingest-IsLive (entry "info" "hi") watched [] watched-IsLive
      (unfold subscribe in small-Represents)
