-- ===== src/Logs/Ring/History.antt =====
-- The buffer against the history of all that was ever added to it.
use Prim.Native.Nat.{min}
use native.Mathlib.Nat.{mod-lt, mod-eq_of_lt, mod-add-mod, div-add-mod}
use native.Mathlib.Decide.{dec_lt}
use mathlib.Core.List.{append-nil, append_assoc}
use ios_pilot.Base.{
  ℕ, ◌+◌, ◌*◌, ◌/◌, ◌%◌, ◌≤◌, ◌<◌, ◌≡◌, ◌≢◌, refl, ◌∙◌, sym, some, List, [], ◌∷◌, ◌++◌, arith,
  length, get_elem?, set, replicate, ltb, if◌then◌else◌, length-append, length-set,
  length-replicate, get_elem?-set_self, get_elem?-set_ne, get_elem?-append_left,
  get_elem?-append_last,
}
use ios_pilot.Driver.{LogEntry}
use ios_pilot.Logs.Ring.{RingBuffer, zero_entry, add, add_all}

-- The slots hold the last `size` entries of the history, entry `i` in slot `i % size`.
pub record Represents (rb : RingBuffer) (hs : List LogEntry) : Type 0 where
  pub size_pos : 0 < rb.size
  pub slots : length rb.entries ≡ rb.size
  pub head_at : rb.head ≡ length hs % rb.size
  pub count_at : rb.count ≡ min (length hs) rb.size
  pub slot_at :
      (i : ℕ)
      → i < length hs
      → length hs ≤ i + rb.size
      → get_elem? rb.entries (i % rb.size) ≡ get_elem? hs i

-- Products by the quotients of two positions, for `grind`.
quotients : (p q s : ℕ) → (q ≤ p → s * q ≤ s * p) × (p < q → s * p + s ≤ s * q)
quotients p q s = (λ h. grind arith, λ h. grind arith)

-- Positions that are less than a turn apart have different slots.
mod_apart : (i j s : ℕ) → i < j → j < i + s → i % s ≢ j % s
mod_apart i j s lt near e =
    grind (arith, div-add-mod i s, div-add-mod j s, quotients (i / s) (j / s) s)

pub new-Represents :
    (cap : ℕ)
    → 0 < cap
    → Represents (record { entries = replicate cap zero_entry; size = cap; head = 0; count = 0 }) []
new-Represents cap h = record {
  size_pos = h;
  slots = length-replicate cap zero_entry;
  head_at = sym (mod-eq_of_lt h);
  count_at = omega arith;
  slot_at = λ i lt. absurd (omega arith);
}

slot_of_add :
    (e : LogEntry) (rb : RingBuffer) (hs : List LogEntry) (i : ℕ)
    → Represents rb hs
    → i < length hs + 1
    → length hs + 1 ≤ i + rb.size
    → get_elem? (set rb.entries rb.head e) (i % rb.size) ≡ get_elem? (hs ++ e ∷ []) i
slot_of_add e rb hs i h lt near = elim (dec_lt i (length hs)) [
  | yes old ↦
      rw (h.head_at, get_elem?-append_left hs (e ∷ []) i old)
        (get_elem?-set_ne rb.entries (length hs % rb.size) (i % rb.size) e
            (λ p. mod_apart i (length hs) rb.size old (omega arith) (sym p))
          ∙ h.slot_at i old (omega arith))
  | no new ↦
      let at_end : i ≡ length hs = omega arith in
      rw (at_end, h.head_at, get_elem?-append_last hs e)
        (get_elem?-set_self rb.entries (length hs % rb.size) e
          (omega (arith, h, mod-lt (length hs) h.size_pos)))
]

-- One entry more: `add` does not panic, and the buffer stands for the longer history.
pub add-Represents :
    (e : LogEntry) (rb : RingBuffer) (hs : List LogEntry)
    → Represents rb hs
    → (rb' : RingBuffer) × (add e rb ≡ some rb')
      × Represents rb' (hs ++ e ∷ [])
      × (rb'.size ≡ rb.size)
unfolding add
add-Represents e rb hs h = (
  record rb {
    entries = set rb.entries rb.head e;
    head = (rb.head + 1) % rb.size;
    count = if ltb rb.count rb.size then rb.count + 1 else rb.count;
  },
  ground (arith, h, mod-lt (length hs) h.size_pos),
  record {
    size_pos = h.size_pos;
    slots = length-set rb.entries rb.head e ∙ h.slots;
    head_at = rw (h.head_at, length-append) (mod-add-mod (length hs) rb.size 1);
    count_at = ground (arith, h, length-append hs (e ∷ []));
    slot_at = λ i lt near.
        let grown : length (hs ++ e ∷ []) ≡ length hs + 1 = length-append hs (e ∷ []) in
        slot_of_add e rb hs i h (omega arith) (omega arith);
  },
  refl,
)

-- Any entries: the buffer stands for the history that they make.
pub add_all-Represents :
    (es hs : List LogEntry) (rb : RingBuffer)
    → Represents rb hs
    → (rb' : RingBuffer) × (add_all es rb ≡ some rb')
      × Represents rb' (hs ++ es)
      × (rb'.size ≡ rb.size)
unfolding add_all
add_all-Represents [] hs rb h = (rb, refl, rw append-nil h, refl)
add_all-Represents (e ∷ es) hs rb h =
    let (rb₁, added, h₁, same) = add-Represents e rb hs h in
    let (rb₂, rest, h₂, same') = add_all-Represents es (hs ++ e ∷ []) rb₁ h₁ in
    (rb₂, rw (added, add_all) rest, rw append_assoc at h₂, same' ∙ same)
