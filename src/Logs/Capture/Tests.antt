-- ===== src/Logs/Capture/Tests.antt =====
-- Captures of two phones, one after the other.
use mathlib.Core.Option
use ios_pilot.Base.{◌≡◌, refl, Option, none, some, List, [], ◌∷◌, arith}
use ios_pilot.Base.Int.{pos}
use ios_pilot.Driver.{LogEntry}
use ios_pilot.Logs.Ring.{zero_entry, new_ring_buffer, add}
use ios_pilot.Logs.Manager.{LogManager, new_log_manager, ingest}
use ios_pilot.Logs.Capture.{Capture, Event, starts, stops, sends, drains, run}
use ios_pilot.Logs.Capture.Runs.{IsOrderly, fresh, captures_go_on}

abbrev boom : LogEntry
boom = record zero_entry { level = "error"; message = "boom" }

abbrev late : LogEntry
late = record zero_entry { level = "info"; message = "late" }

-- the goroutines of the first capture go on after `Stop` and a second `Start`
abbrev events : List Event
events =
    starts "A1"
    ∷ sends 0 boom
    ∷ sends 0 late
    ∷ drains 0
    ∷ stops
    ∷ starts "B2"
    ∷ sends 0 boom
    ∷ drains 1
    ∷ drains 0
    ∷ []

captures_go_on_example :
    (lm : LogManager) × (new_log_manager (pos 2) ≡ some lm)
    × (c : Capture) × (run events (fresh lm) ≡ some c)
    × IsOrderly c
captures_go_on_example = captures_go_on 2 events (omega arith)

abbrev stored_by : Option Capture → List LogEntry
stored_by none = []
stored_by (some c) = c.history

-- the entry of the old phone is stored while the new one is captured
late_entry :
    stored_by (Option.bind (new_log_manager (pos 2)) (λ lm. run events (fresh lm)))
    ≡ boom ∷ late ∷ boom ∷ []
unfolding run new_log_manager ingest Option.bind new_ring_buffer add
late_entry = refl
