-- ===== src/Logs/Ring/Refine.antt =====
-- `GetLast` and `GetAll` against the bounded history.
use Prim.Native.Nat.{min}
use native.Mathlib.Decide.{dec_lt}
use native.Mathlib.Nat.{mod-add-mod, mod-eq-sub-mod}
use mathlib.Core.Option
use mathlib.Core.Path.{ap₂}
use ios_pilot.Base.{
  ℕ, zero, suc, ◌+◌, ◌-◌, ◌%◌, ◌≤◌, ◌<◌, ◌≡◌, refl, ap, sym, ◌∙◌, none, some, List, [], ◌∷◌, arith,
  length, get_elem?, ◌↔◌, drop, length-replicate, drop-cons, drop-length,
}
use ios_pilot.Base.Int.{ℤ, pos, negsuc, ◌≤ℤ◌}
use ios_pilot.Driver.{LogEntry}
use ios_pilot.Logs.Ring.{
  RingBuffer, zero_entry, add, add_all, requested, oldest, read_window, get_last, get_all,
  new_ring_buffer,
}
use ios_pilot.Logs.Ring.History.{Represents, new-Represents, add_all-Represents}

requested_bounds :
    (n : ℤ) (count : ℕ) → 0 < count → (0 < requested n count) × (requested n count ≤ count)
unfolding requested
requested_bounds (pos n) count h = ground arith
requested_bounds (negsuc n) count h = ground arith

suc_mod : (a b m : ℕ) → a % m ≡ b % m → suc a % m ≡ suc b % m
suc_mod a b m p =
    ap (λ t. t % m) (omega arith)
    ∙ sym (mod-add-mod a m 1)
    ∙ ap (λ t. (t + 1) % m) p
    ∙ mod-add-mod b m 1
    ∙ ap (λ t. t % m) (omega arith)

turn_mod : (a k m : ℕ) → k ≤ m → k ≤ a → (a % m + (m - k)) % m ≡ (a - k) % m
turn_mod a k m h h' =
    mod-add-mod a m (m - k) ∙ mod-eq-sub-mod (omega arith) ∙ ap (λ t. t % m) (omega arith)

-- A read that starts at the slot of position `i` returns the history from there on.
read_window-eq-drop :
    (rb : RingBuffer) (hs : List LogEntry) (k base i : ℕ)
    → Represents rb hs
    → i + k ≡ length hs
    → k ≤ rb.size
    → base % rb.size ≡ i % rb.size
    → read_window rb base k ≡ some (drop i hs)
unfolding read_window
read_window-eq-drop rb hs zero base i h ends fits at =
    let e : i ≡ length hs = omega arith in rw (e, drop-length hs)
read_window-eq-drop rb hs (suc k) base i h ends fits at =
    let (x, here, split) = drop-cons hs i (omega arith) in
    let rest : read_window rb (suc base) k ≡ some (drop (suc i) hs) =
      read_window-eq-drop rb hs k (suc base) (suc i) h (omega arith) (omega arith)
        (suc_mod base i rb.size at) in
    let slot : get_elem? rb.entries (base % rb.size) ≡ some x =
      ap (get_elem? rb.entries) at ∙ h.slot_at i (omega arith) (omega arith) ∙ here in
    ground (arith, slot, rest, split)

-- The slot where the read of the last `k` entries starts.
start_slot :
    (rb : RingBuffer) (hs : List LogEntry) (k : ℕ)
    → Represents rb hs
    → k ≤ rb.count
    → (oldest rb + (rb.count - k)) % rb.size ≡ (length hs - k) % rb.size
unfolding oldest
start_slot rb hs k h fits = elim (dec_lt rb.count rb.size) [
  | yes part ↦ ap (λ t. t % rb.size) (ground (arith, h))
  | no full ↦
      let at_head : oldest rb ≡ length hs % rb.size = ground (arith, h) in
      let filled : rb.count ≡ rb.size = omega (arith, h) in
      ap₂ (λ a b. (a + (b - k)) % rb.size) at_head filled
      ∙ turn_mod (length hs) k rb.size (omega (arith, h)) (omega (arith, h))
]

drop_empty : (k : ℕ) (hs : List LogEntry) → length hs ≡ 0 → drop k hs ≡ []
drop_empty zero [] h = refl
drop_empty (suc k) [] h = refl
drop_empty k (x ∷ hs) h = absurd (omega arith)

-- On a buffer that stands for the history `hs`, `GetLast(n)` does not panic. It returns the last `k`
-- entries of `hs`, oldest first, where `k` is what was asked for, or all that is stored.
pub get_last-eq-drop :
    (rb : RingBuffer) (hs : List LogEntry) (n : ℤ)
    → Represents rb hs
    → get_last n rb ≡ some (drop (length hs - requested n rb.count) hs)
unfolding get_last
get_last-eq-drop rb hs n h = elim (dec_lt 0 rb.count) [
  | yes any ↦
      let (low, high) = requested_bounds n rb.count any in
      let window : read_window rb (oldest rb + (rb.count - requested n rb.count))
            (requested n rb.count)
          ≡ some (drop (length hs - requested n rb.count) hs) =
        read_window-eq-drop rb hs (requested n rb.count)
          (oldest rb + (rb.count - requested n rb.count)) (length hs - requested n rb.count) h
          (omega (arith, h)) (omega (arith, h)) (start_slot rb hs (requested n rb.count) h high) in
      ground (arith, window)
  | no none_yet ↦
      let gone : drop (length hs - requested n rb.count) hs ≡ [] =
        drop_empty _ hs (omega (arith, h)) in
      rw gone (ground (arith))
]

get_all-eq-drop :
    (rb : RingBuffer) (hs : List LogEntry)
    → Represents rb hs
    → get_all rb ≡ some (drop (length hs - rb.count) hs)
unfolding get_all requested
get_all-eq-drop rb hs h =
    get_last-eq-drop rb hs (pos 0) h ∙ ap (λ k. some (drop (length hs - k) hs)) (ground arith)

-- A buffer of a positive capacity takes any entries without a panic, and then `GetLast(n)` returns
-- the most recent ones in the order of their arrival: the number that was asked for, or, for
-- `n <= 0` and for an `n` that is not below the number stored, all that are stored, which are the
-- last `capacity` of them.
pub get_last-add_all :
    (capacity : ℕ) (es : List LogEntry) (n : ℤ)
    → 0 < capacity
    → (rb : RingBuffer) × (Option.bind (new_ring_buffer (pos capacity)) (add_all es) ≡ some rb)
      × (get_last n rb ≡ some (drop (length es - requested n (min (length es) capacity)) es))
      × (get_all rb ≡ some (drop (length es - capacity) es))
unfolding new_ring_buffer Option.bind
get_last-add_all capacity es n h =
    let (rb, added, held, same) = add_all-Represents es [] _ (new-Represents capacity h) in
    let stored : rb.count ≡ min (length es) capacity = omega (arith, held) in
    (
      rb,
      added,
      rw (← stored) (get_last-eq-drop rb es n held),
      get_all-eq-drop rb es held ∙ ap (λ k. some (drop k es)) (omega (arith, stored)),
    )

-- The first entry panics exactly for the capacities that are not positive.
pub add_panics :
    (capacity : ℤ) (e : LogEntry)
    → (Option.bind (new_ring_buffer capacity) (add e) ≡ none) ↔ (capacity ≤ℤ pos 0)
unfolding new_ring_buffer add Option.bind
add_panics (pos zero) e = ground arith
add_panics (pos (suc n)) e = ground (arith, length-replicate n zero_entry)
add_panics (negsuc n) e = (λ _. omega arith, λ _. refl)
