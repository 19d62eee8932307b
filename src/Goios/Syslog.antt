-- ===== src/Goios/Syslog.antt =====
-- The system log of a device (internal/driver/goios/syslog.go). What the loop meets is a list of
-- rounds; an entry that is sent to the channel goes into the list of entries.
use ios_pilot.Base.{ℕ, String, Option, none, some, List, [], ◌∷◌}
use ios_pilot.Errors.{GoError, wrapped, Result, ok, err, and_then}
use ios_pilot.Driver.{LogEntry}
use ios_pilot.Goios.{Library, call_in}

-- what the parser of go-ios finds in a line
pub record Parsed : Type 0 where
  pub timestamp : String
  pub process : String
  pub pid : String
  pub level : String
  pub message : String

-- A round: the context was cancelled before the read; or the read gave a line, with the channel taking
-- the entry or the context being cancelled first; or it gave an error: the end of the stream, an error
-- after the context was cancelled, or another.
pub data Round : Type 0 where
  cancelled : Round
  line : String → Round
  line_cancelled : String → Round
  eof : Round
  error_cancelled : GoError → Round
  failed : GoError → Round

-- a line that cannot be parsed keeps only its text
abbrev pub entry_of : String → Option Parsed → LogEntry
entry_of raw none = record {
  timestamp = "";
  process = "";
  pid = "";
  level = "";
  message = "";
  raw = raw;
}
entry_of raw (some p) = record {
  timestamp = p.timestamp;
  process = p.process;
  pid = p.pid;
  level = p.level;
  message = p.message;
  raw = raw;
}

-- the entries that were sent, and the result; `none` is a loop that still runs
abbrev pub Streamed : Type 0
Streamed = List LogEntry × Option (Result (Unit {0}))

abbrev sent : LogEntry → Streamed → Streamed
sent e (es, r) = (e ∷ es, r)

module _ (parse : String → Option Parsed) where
  unfoldable pub stream : List Round → Streamed
  stream [] = ([], none)
  stream (cancelled ∷ rs) = ([], some (ok tt))
  stream (line raw ∷ rs) = sent (entry_of raw (parse raw)) (stream rs)
  stream (line_cancelled raw ∷ rs) = ([], some (ok tt))
  stream (eof ∷ rs) = ([], some (ok tt))
  stream (error_cancelled e ∷ rs) = ([], some (ok tt))
  stream (failed e ∷ rs) = ([], some (err (wrapped "syslog: read" e)))

module _ {E W : Type 0} (lib : Library E W) where
  -- the connection is closed where the loop ends
  abbrev ended : Streamed → W → W → Streamed × W
  ended (es, none) w w' = ((es, none), w)
  ended (es, some r) w w' = ((es, some r), w')

  abbrev pub connected : (String → Option Parsed) → List Round → Result ℕ × W → Streamed × W
  unfolding stream
  connected parse rs (err e, w) = (([], some (err e)), w)
  connected parse rs (ok conn, w) = ended (stream parse rs) w (lib.close conn w)

  unfoldable pub start_syslog : (String → Option Parsed) → List Round → String → W → Streamed × W
  unfolding stream
  start_syslog parse rs udid w = connected parse rs (
      and_then (call_in "syslog: get device" (lib.get_device udid) w)
        λ entry. call_in "syslog: connect" (lib.syslog entry))
