-- ===== src/Logs/Capture/Runs.antt =====
-- The captures from the start of a daemon on.
use ios_pilot.Base.{
  ℕ, ◌<◌, String, ◌≡◌, refl, Bool, true, false, Option, none, some, List, [], ◌∷◌, ◌++◌, arith,
  Bool-cases, Option-cases, inl, inr, replicate,
}
use ios_pilot.Base.Int.{pos}
use ios_pilot.Driver.{LogEntry}
use ios_pilot.Logs.Ring.{add, new_ring_buffer, zero_entry}
use ios_pilot.Logs.Ring.History.{Represents, new-Represents}
use ios_pilot.Logs.Manager.{
  LogManager, new_log_manager, start, stop, ingest, fan_out, deliver, send,
}
use ios_pilot.Logs.Manager.Subscribers.{IsLive}
use ios_pilot.Logs.Manager.Delivery.{ingest-IsLive}
use ios_pilot.Logs.Capture.{
  Session, Capture, new_session, change, cancel_newest, start_capture, stop_capture, send_entry,
  end_driver, end_drain, received, take_entry, drain, Event, starts, stops, sends, driver_ends,
  drains, drain_ends, happen, run,
}
use ios_pilot.Logs.Capture.Streams.{
  AllStreams, AllCancelled, OneRuns, change-AllStreams, change-OneRuns, send-Keeps,
  end_driver-Keeps, end_drain-Keeps, take-Keeps, Keeps,
}

-- what `Start` and `Stop` look at
abbrev SameRun : LogManager → LogManager → Type 0
SameRun lm lm' = (lm'.running ≡ lm.running) × (lm'.udid ≡ lm.udid)

deliver_same :
    (e : LogEntry) (ids : List ℕ) (lm lm' : LogManager)
    → deliver e ids lm ≡ some lm'
    → SameRun lm lm'
unfolding deliver
deliver_same e [] lm lm' h = ground (arith, h)
deliver_same e (id ∷ ids) lm lm' h = elim (Option-cases (send e id lm.channels)) [
  | inl panics ↦ absurd (ground (arith, h, panics))
  | inr (cs, sent) ↦ deliver_same e ids (record lm { channels = cs }) lm' (ground (arith, h, sent))
]

ingest_same : (e : LogEntry) (lm lm' : LogManager) → ingest e lm ≡ some lm' → SameRun lm lm'
unfolding ingest fan_out
ingest_same e lm lm' h = elim (Option-cases (add e lm.buffer)) [
  | inl panics ↦ absurd (ground (arith, h, panics))
  | inr (rb, added) ↦
      deliver_same e lm.subscribers (record lm { buffer = rb }) lm' (ground (arith, h, added))
]

-- The captures are streams of which one runs while the manager does, and the buffer stands for all
-- that was stored.
pub record IsOrderly (c : Capture) : Type 0 where
  pub streams : AllStreams c.sessions
  pub one : OneRuns c.manager.running c.manager.udid c.sessions
  pub live : IsLive c.manager
  pub stored : Represents c.manager.buffer c.history

all_cancelled :
    (running : Bool) (udid : String) (ss : List Session)
    → running ≡ true
    → OneRuns running udid ss
    → AllCancelled (cancel_newest ss)
unfolding cancel_newest
all_cancelled true udid [] on h = elim h [ ]
all_cancelled true udid (s ∷ ss) on h = (refl, h.2)
all_cancelled false udid ss on h = absurd (ground (arith, on))

resting_cancelled :
    (running : Bool) (udid : String) (ss : List Session)
    → running ≡ false
    → OneRuns running udid ss
    → AllCancelled ss
resting_cancelled true udid ss off h = absurd (ground (arith, off))
resting_cancelled false udid ss off h = h

newest_streams : (ss : List Session) → AllStreams ss → AllStreams (cancel_newest ss)
unfolding cancel_newest
newest_streams [] h = tt
newest_streams (s ∷ ss) h = (
  record {
    bounded = h.0.bounded;
    in_order = h.0.in_order;
    alive = λ p. absurd (ground (arith, p));
  },
  h.1,
)

changed-IsOrderly :
    (k : ℕ) (f : Session → Session) (c : Capture)
    → Keeps f
    → IsOrderly c
    → IsOrderly (record c { sessions = change k f c.sessions })
changed-IsOrderly k f c keeps h = record {
  streams = change-AllStreams k f c.sessions keeps h.streams;
  one = change-OneRuns c.manager.running c.manager.udid k f c.sessions keeps h.one;
  live = h.live;
  stored = h.stored;
}

start_running : (udid : String) (c : Capture) → c.manager.running ≡ true → start_capture udid c ≡ c
unfolding start_capture start
start_running udid c on = ground (arith, on)

start_resting :
    (udid : String) (c : Capture)
    → c.manager.running ≡ false
    → start_capture udid c ≡ record c {
      manager = record (c.manager) { udid = udid; running = true };
      sessions = new_session udid ∷ c.sessions;
    }
unfolding start_capture start
start_resting udid c off = ground (arith, off)

stop_running :
    (c : Capture)
    → c.manager.running ≡ true
    → stop_capture c ≡ record c {
      manager = record (c.manager) { running = false };
      sessions = cancel_newest c.sessions;
    }
unfolding stop_capture stop
stop_running c on = ground (arith, on)

stop_resting : (c : Capture) → c.manager.running ≡ false → stop_capture c ≡ c
unfolding stop_capture stop
stop_resting c off = ground (arith, off)

start_capture-IsOrderly :
    (udid : String) (c : Capture) → IsOrderly c → IsOrderly (start_capture udid c)
start_capture-IsOrderly udid c h = elim (Bool-cases c.manager.running) [
  | inl on ↦ rw (start_running udid c on) h
  | inr off ↦ rw (start_resting udid c off) (record {
    streams = (record { bounded = omega arith; in_order = refl; alive = λ _. refl }, h.streams);
    one = (refl, refl, resting_cancelled c.manager.running c.manager.udid c.sessions off h.one);
    live = record { all_open = h.live.all_open; distinct = h.live.distinct };
    stored = h.stored;
  })
]

stop_capture-IsOrderly : (c : Capture) → IsOrderly c → IsOrderly (stop_capture c)
stop_capture-IsOrderly c h = elim (Bool-cases c.manager.running) [
  | inl on ↦ rw (stop_running c on) (record {
    streams = newest_streams c.sessions h.streams;
    one = all_cancelled c.manager.running c.manager.udid c.sessions on h.one;
    live = record { all_open = h.live.all_open; distinct = h.live.distinct };
    stored = h.stored;
  })
  | inr off ↦ rw (stop_resting c off) h
]

-- the program goes on, in order
abbrev pub GoesOn : Option Capture → Type 0
GoesOn o = (c : Capture) × (o ≡ some c) × IsOrderly c

drain-GoesOn :
    (k : ℕ) (found : Option LogEntry) (c : Capture) → IsOrderly c → GoesOn (drain k found c)
unfolding drain
drain-GoesOn k none c h = (c, refl, h)
drain-GoesOn k (some e) c h =
    let (lm, took, live, stored, _) = ingest-IsLive e c.manager c.history h.live h.stored in
    let (on, dev) = ingest_same e c.manager lm took in
    (
      record {
        manager = lm;
        sessions = change k take_entry c.sessions;
        history = c.history ++ e ∷ [];
      },
      rw (took, drain) refl,
      record {
        streams = change-AllStreams k take_entry c.sessions take-Keeps h.streams;
        one =
            rw (on, dev)
              (change-OneRuns c.manager.running c.manager.udid k take_entry c.sessions take-Keeps
                h.one);
        live = live;
        stored = stored;
      },
    )

happen-GoesOn : (ev : Event) (c : Capture) → IsOrderly c → GoesOn (happen ev c)
unfolding happen
happen-GoesOn (starts udid) c h = (start_capture udid c, refl, start_capture-IsOrderly udid c h)
happen-GoesOn stops c h = (stop_capture c, refl, stop_capture-IsOrderly c h)
happen-GoesOn (sends k e) c h = (_, refl, changed-IsOrderly k (send_entry e) c (send-Keeps e) h)
happen-GoesOn (driver_ends k) c h = (_, refl, changed-IsOrderly k end_driver c end_driver-Keeps h)
happen-GoesOn (drains k) c h = drain-GoesOn k (received k c.sessions) c h
happen-GoesOn (drain_ends k) c h = (_, refl, changed-IsOrderly k end_drain c end_drain-Keeps h)

run-GoesOn : (evs : List Event) (c : Capture) → IsOrderly c → GoesOn (run evs c)
unfolding run
run-GoesOn [] c h = (c, refl, h)
run-GoesOn (ev ∷ evs) c h =
    let (c', went, h') = happen-GoesOn ev c h in
    let (c'', rest, h'') = run-GoesOn evs c' h' in (c'', rw (went, run) rest, h'')

-- a manager that was just made
abbrev pub fresh : LogManager → Capture
fresh lm = record { manager = lm; sessions = []; history = [] }

-- With a buffer of a positive capacity, no interleaving of `Start`, `Stop` and the goroutines of the
-- captures panics, and after any of them: a channel holds what its driver sent and the manager has not
-- drained, in order and at most 256 entries; while the manager runs, one capture runs, the newest,
-- of the device of the manager; and the buffer stands for all the entries that were drained.
pub captures_go_on :
    (size : ℕ) (evs : List Event)
    → 0 < size
    → (lm : LogManager) × (new_log_manager (pos size) ≡ some lm)
      × (c : Capture) × (run evs (fresh lm) ≡ some c)
      × IsOrderly c
unfolding new_log_manager new_ring_buffer
captures_go_on size evs h =
    let lm : LogManager = record {
      buffer = record { entries = replicate size zero_entry; size = size; head = 0; count = 0 };
      udid = "";
      running = false;
      subscribers = [];
      channels = [];
    } in
    let (c, went, orderly) = run-GoesOn evs (fresh lm) (record {
      streams = tt;
      one = tt;
      live = record { all_open = tt; distinct = tt };
      stored = new-Represents size h;
    }) in
    (lm, refl, c, went, orderly)
