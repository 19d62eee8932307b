-- ===== src/Logs/Manager/Filter.antt =====
-- What `GetLogs` returns, against the history of the buffer.
use ios_pilot.Base.{
  zero, suc, ◌-◌, ◌≡◌, refl, Bool, true, ◌&&◌, ◌||◌, some, List, [], ◌∷◌, ◌==◌, arith, length, drop,
  if◌then◌else◌, Bool-cases, inl, inr,
}
use ios_pilot.Base.Int.{ℤ, pos, negsuc}
use ios_pilot.Base.Text.{codes, contains}
use ios_pilot.Driver.{LogEntry}
use ios_pilot.Logs.Ring.{requested, get_all}
use ios_pilot.Logs.Ring.History.{Represents}
use ios_pilot.Logs.Ring.Refine.{get_last-eq-drop}
use ios_pilot.Logs.Manager.{LogFilter, LogManager, keep, filter_entries, considered, get_logs}

-- An entry passes each part of the filter that is set: the process and the level are equal to it, and
-- the text is in the message or in the raw line.
abbrev pub passes : LogFilter → LogEntry → Bool
passes f e =
    (f.bundle_id == "" || e.process == f.bundle_id)
    && (f.level == "" || e.level == f.level)
    && (f.search == ""
        || contains (codes e.message) (codes f.search)
        || contains (codes e.raw) (codes f.search))

-- the entries that pass, in their order
abbrev pub passing : LogFilter → List LogEntry → List LogEntry
passing f [] = []
passing f (e ∷ es) = let rest = passing f es in if passes f e then e ∷ rest else rest

keep-eq-passes : (f : LogFilter) (e : LogEntry) → keep f e ≡ passes f e
unfolding keep
keep-eq-passes f e = ground arith

filter_entries-eq-passing :
    (f : LogFilter) (es : List LogEntry) → filter_entries f es ≡ passing f es
unfolding filter_entries
filter_entries-eq-passing f [] = refl
filter_entries-eq-passing f (e ∷ es) =
    ground (arith, keep-eq-passes f e, filter_entries-eq-passing f es)

-- With no part of the filter set every entry passes.
passing_all :
    (f : LogFilter) (es : List LogEntry)
    → (f.bundle_id == "" && f.level == "" && f.search == "") ≡ true
    → passing f es ≡ es
passing_all f [] h = refl
passing_all f (e ∷ es) h = ground (arith, passing_all f es h)

considered-eq-drop :
    (n : ℤ) (lm : LogManager) (hs : List LogEntry)
    → Represents lm.buffer hs
    → considered n lm ≡ some (drop (length hs - requested n lm.buffer.count) hs)
unfolding considered requested get_all
considered-eq-drop (pos zero) lm hs h = get_last-eq-drop lm.buffer hs (pos 0) h
considered-eq-drop (pos (suc n)) lm hs h = get_last-eq-drop lm.buffer hs (pos (suc n)) h
considered-eq-drop (negsuc n) lm hs h = get_last-eq-drop lm.buffer hs (pos 0) h

-- `GetLogs(n, f)` returns the entries that pass the filter among the last `n` of the history (among
-- all that are stored, if `n <= 0` or `n` is not below their number), in the order of their arrival.
-- The filter is applied after the cut: older entries are not looked at.
pub get_logs-eq-passing :
    (n : ℤ) (f : LogFilter) (lm : LogManager) (hs : List LogEntry)
    → Represents lm.buffer hs
    → get_logs n f lm ≡ some (passing f (drop (length hs - requested n lm.buffer.count) hs))
unfolding get_logs
get_logs-eq-passing n f lm hs h =
    let window = drop (length hs - requested n lm.buffer.count) hs in
    elim (Bool-cases (f.bundle_id == "" && f.level == "" && f.search == "")) [
      | inl plain ↦ ground (arith, considered-eq-drop n lm hs h, plain, passing_all f window plain)
      | inr set ↦
          ground (arith, considered-eq-drop n lm hs h, set, filter_entries-eq-passing f window)
    ]
