-- ===== src/Logs/Ring.antt =====
-- `RingBuffer` (internal/core/log_manager.go, lines 11 to 87): a fixed-capacity circular buffer.
-- `none` is a panic of Go: an index out of range, a division by zero, a negative length.
-- The index `start` that `GetLast` computes and never reads is left out.
pub mod History
pub mod Refine
mod Tests
use mathlib.Core.Option
use ios_pilot.Base.{
  ℕ, zero, suc, ◌+◌, ◌-◌, ◌%◌, Bool, true, ◌||◌, Option, none, some, List, [], ◌∷◌, ltb, leb,
  nat_eq, if◌then◌else◌, length, get_elem?, set, replicate,
}
use ios_pilot.Base.Int.{ℤ, pos, negsuc}
use ios_pilot.Driver.{LogEntry}

pub record RingBuffer : Type 0 where
  pub entries : List LogEntry
  pub size : ℕ
  pub head : ℕ
  pub count : ℕ

-- the zero value of the struct
abbrev pub zero_entry : LogEntry
zero_entry = record { timestamp = ""; process = ""; pid = ""; level = ""; message = ""; raw = "" }

unfoldable pub new_ring_buffer : ℤ → Option RingBuffer
new_ring_buffer (pos capacity) =
    some (record { entries = replicate capacity zero_entry; size = capacity; head = 0; count = 0 })
new_ring_buffer (negsuc _) = none

unfoldable pub add : LogEntry → RingBuffer → Option RingBuffer
add entry rb =
    if ltb rb.head (length rb.entries)
    then if nat_eq rb.size 0
      then none
      else some (record rb {
        entries = set rb.entries rb.head entry;
        head = (rb.head + 1) % rb.size;
        count = if ltb rb.count rb.size then rb.count + 1 else rb.count;
      })
    else none

-- how many entries `GetLast(n)` returns of the `count` that are stored
unfoldable pub requested : ℤ → ℕ → ℕ
requested (pos n) count = if leb n 0 || leb count n then count else n
requested (negsuc _) count = count

-- the physical index of the oldest entry
pub oldest : RingBuffer → ℕ
oldest rb = if ltb rb.count rb.size then 0 else rb.head

-- the loop of `GetLast`: `k` entries from the logical position `base` on
pub read_window : RingBuffer → ℕ → ℕ → Option (List LogEntry)
read_window rb base zero = some []
read_window rb base (suc k) =
    let rest = read_window rb (suc base) k in
    elim (get_elem? rb.entries (base % rb.size)) [
      | none ↦ none
      | some e ↦ elim rest [ none ↦ none | some es ↦ some (e ∷ es) ]
    ]

unfoldable pub get_last : ℤ → RingBuffer → Option (List LogEntry)
unfolding requested oldest read_window
get_last n rb =
    let k = requested n rb.count in
    if nat_eq rb.count 0 then some [] else read_window rb (oldest rb + (rb.count - k)) k

unfoldable pub get_all : RingBuffer → Option (List LogEntry)
unfolding get_last
get_all rb = get_last (pos 0) rb

-- the entries that arrive one after the other
unfoldable pub add_all : List LogEntry → RingBuffer → Option RingBuffer
unfolding add
add_all [] rb = some rb
add_all (e ∷ es) rb = elim (add e rb) [ none ↦ none | some rb' ↦ add_all es rb' ]
