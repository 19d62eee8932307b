-- ===== src/Logs/Ring/Tests.antt =====
-- The ring buffer at a few entries.
use Prim.Native.Nat.{min}
use mathlib.Core.Option
use ios_pilot.Base.{◌-◌, ◌≡◌, refl, ◌↔◌, some, none, List, [], ◌∷◌, arith, drop}
use ios_pilot.Base.Int.{pos, ◌≤ℤ◌}
use ios_pilot.Driver.{LogEntry}
use ios_pilot.Logs.Ring.{
  RingBuffer, zero_entry, new_ring_buffer, add, add_all, requested, get_last, get_all,
}
use ios_pilot.Logs.Ring.Refine.{get_last-add_all, add_panics}

abbrev numbered : List LogEntry
numbered =
    record zero_entry { message = "1" }
    ∷ record zero_entry { message = "2" }
    ∷ record zero_entry { message = "3" }
    ∷ []

get_last-add_all_example :
    (rb : RingBuffer) × (Option.bind (new_ring_buffer (pos 2)) (add_all numbered) ≡ some rb)
    × (get_last (pos 1) rb ≡ some (drop (3 - requested (pos 1) (min 3 2)) numbered))
    × (get_all rb ≡ some (drop (3 - 2) numbered))
get_last-add_all_example = get_last-add_all 2 numbered (pos 1) (omega arith)

one_recent :
    drop (3 - requested (pos 1) (min 3 2)) numbered ≡ record zero_entry { message = "3" } ∷ []
unfolding requested
one_recent = refl

add_panics_example :
    (Option.bind (new_ring_buffer (pos 0)) (add zero_entry) ≡ none) ↔ (pos 0 ≤ℤ pos 0)
add_panics_example = add_panics (pos 0) zero_entry
