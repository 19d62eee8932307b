-- ===== src/Logs/Manager/Channels.antt =====
-- The store of channels: which are open, and what a send and a delivery do to that.
use ios_pilot.Base.{
  ℕ, zero, suc, ◌<◌, ◌≡◌, refl, ◌∙◌, Bool, true, false, not, none, some, List, [], ◌∷◌, ◌++◌, arith,
  ltb, nat_eq, if◌then◌else◌, length, get_elem?, set, Bool-cases, Option-cases, inl, inr,
}
use ios_pilot.Driver.{LogEntry}
use ios_pilot.Logs.Manager.{
  Channel, LogManager, channel_capacity, is_subscribed, close_channel, send, deliver,
}

-- the channel with this number was made, and is open
abbrev pub is_open : List Channel → ℕ → Bool
is_open cs id = elim (get_elem? cs id) [ none ↦ false | some c ↦ not c.closed ]

abbrev pub AllOpen : List Channel → List ℕ → Type 0
AllOpen cs [] = Unit
AllOpen cs (id ∷ ids) = (is_open cs id ≡ true) × AllOpen cs ids

abbrev pub Distinct : List ℕ → Type 0
Distinct [] = Unit
Distinct (id ∷ ids) = (is_subscribed id ids ≡ false) × Distinct ids

pub is_open-set :
    (cs : List Channel) (id : ℕ) (c : Channel) (k : ℕ) {old : Channel}
    → get_elem? cs id ≡ some old
    → is_open (set cs id c) k ≡ (if nat_eq id k then not c.closed else is_open cs k)
is_open-set [] id c k h = cc
is_open-set (x ∷ cs) zero c zero h = refl
is_open-set (x ∷ cs) zero c (suc k) h = ground arith
is_open-set (x ∷ cs) (suc id) c zero h = ground arith
is_open-set (x ∷ cs) (suc id) c (suc k) h = ground (arith, is_open-set cs id c k h)

pub open_channel :
    (cs : List Channel) (id : ℕ)
    → is_open cs id ≡ true
    → (c : Channel) × (get_elem? cs id ≡ some c) × (c.closed ≡ false)
open_channel cs id h = elim (Option-cases (get_elem? cs id)) [
  | inl gone ↦ ground (arith, gone)
  | inr (c, here) ↦ (c, here, ground (arith, here))
]

-- the channels after a send that is accepted, or dropped
sent : LogEntry → ℕ → Channel → List Channel → List Channel
sent e id c cs =
    if ltb (length c.buffered) channel_capacity
    then set cs id (record c { buffered = c.buffered ++ e ∷ [] })
    else cs

-- A send to an open channel returns, and the channels that were open still are.
pub send_open :
    (e : LogEntry) (id : ℕ) (cs : List Channel)
    → is_open cs id ≡ true
    → (cs' : List Channel) × (send e id cs ≡ some cs') × ((k : ℕ) → is_open cs' k ≡ is_open cs k)
unfolding send sent
send_open e id cs h =
    let (c, here, live) = open_channel cs id h in
    (
      sent e id c cs,
      ground (arith, here, live),
      λ k. ground (
        arith,
        live,
        here,
        is_open-set cs id (record c { buffered = c.buffered ++ e ∷ [] }) k here,
      ),
    )

-- the entries that wait in a channel
abbrev pub queue : List Channel → ℕ → List LogEntry
queue cs id = elim (get_elem? cs id) [ none ↦ [] | some c ↦ c.buffered ]

queue-set :
    (cs : List Channel) (id : ℕ) (c : Channel) (k : ℕ) {old : Channel}
    → get_elem? cs id ≡ some old
    → queue (set cs id c) k ≡ (if nat_eq id k then c.buffered else queue cs k)
queue-set [] id c k h = cc
queue-set (x ∷ cs) zero c zero h = refl
queue-set (x ∷ cs) zero c (suc k) h = ground arith
queue-set (x ∷ cs) (suc id) c zero h = ground arith
queue-set (x ∷ cs) (suc id) c (suc k) h = ground (arith, queue-set cs id c k h)

-- the queue of a channel that has room takes the entry
abbrev pub enqueue : LogEntry → List LogEntry → List LogEntry
enqueue e q = if ltb (length q) channel_capacity then q ++ e ∷ [] else q

queue-send :
    (e : LogEntry) (id : ℕ) (cs cs' : List Channel) (k : ℕ)
    → is_open cs id ≡ true
    → send e id cs ≡ some cs'
    → queue cs' k ≡ (if nat_eq id k then enqueue e (queue cs k) else queue cs k)
unfolding send
queue-send e id cs cs' k h accepted =
    let (c, here, live) = open_channel cs id h in
    let moved : queue (set cs id (record c { buffered = c.buffered ++ e ∷ [] })) k
        ≡ (if nat_eq id k then c.buffered ++ e ∷ [] else queue cs k) =
      queue-set cs id (record c { buffered = c.buffered ++ e ∷ [] }) k here in
    ground (arith, here, live, moved, accepted)

-- A send to a closed channel panics.
pub send_closed :
    (e : LogEntry) (id : ℕ) (cs : List Channel) → is_open cs id ≡ false → send e id cs ≡ none
unfolding send
send_closed e id cs shut = ground arith

pub AllOpen-mono :
    (cs cs' : List Channel) (ids : List ℕ)
    → ((k : ℕ) → is_open cs k ≡ true → is_open cs' k ≡ true)
    → AllOpen cs ids
    → AllOpen cs' ids
AllOpen-mono cs cs' [] keeps h = tt
AllOpen-mono cs cs' (id ∷ ids) keeps h = (keeps id h.0, AllOpen-mono cs cs' ids keeps h.1)

-- A delivery to open channels returns. It changes the queues alone.
pub deliver_open :
    (e : LogEntry) (ids : List ℕ) (lm : LogManager)
    → AllOpen lm.channels ids
    → (cs : List Channel) × (deliver e ids lm ≡ some (record lm { channels = cs }))
      × ((k : ℕ) → is_open cs k ≡ is_open lm.channels k)
unfolding deliver
deliver_open e [] lm h = (lm.channels, refl, λ k. refl)
deliver_open e (id ∷ ids) lm h =
    let (cs, accepted, same) = send_open e id lm.channels h.0 in
    let (cs', rest, same') =
      deliver_open e ids (record lm { channels = cs })
        (AllOpen-mono lm.channels cs ids (λ k up. same k ∙ up) h.1) in
    (cs', rw (accepted, deliver) rest, λ k. same' k ∙ same k)

-- Each channel that a delivery goes to takes the entry once if it has room, and no other changes.
pub queue-deliver :
    (e : LogEntry) (ids : List ℕ) (lm lm' : LogManager) (k : ℕ)
    → AllOpen lm.channels ids
    → Distinct ids
    → deliver e ids lm ≡ some lm'
    → queue lm'.channels k
      ≡ (if is_subscribed k ids then enqueue e (queue lm.channels k) else queue lm.channels k)
unfolding deliver is_subscribed
queue-deliver e [] lm lm' k h d done = ground arith
queue-deliver e (id ∷ ids) lm lm' k h d done =
    let (cs, accepted, same) = send_open e id lm.channels h.0 in
    let rest =
      queue-deliver e ids (record lm { channels = cs }) lm' k
        (AllOpen-mono lm.channels cs ids (λ j up. same j ∙ up) h.1) d.1
        (rw (accepted, deliver) at done) in
    let one = queue-send e id lm.channels cs k h.0 accepted in
    elim (Bool-cases (nat_eq id k)) [
      | inl same_id ↦
          let e_id : id ≡ k = ground arith in
          let out : is_subscribed k ids ≡ false = rw e_id at d.0 in rw (rest, one, same_id, out)
      | inr other ↦ ground (arith, rest, one, other)
    ]

-- A delivery to a list with a closed channel panics.
pub deliver_closed :
    (e : LogEntry) (ids : List ℕ) (id : ℕ) (lm : LogManager)
    → is_subscribed id ids ≡ true
    → is_open lm.channels id ≡ false
    → deliver e ids lm ≡ none
unfolding deliver is_subscribed
deliver_closed e [] id lm s h = cc
deliver_closed e (k ∷ ids) id lm s h = elim (Bool-cases (is_open lm.channels k)) [
  | inl up ↦
      let (cs, accepted, same) = send_open e k lm.channels up in
      rw (accepted, deliver)
        (deliver_closed e ids id (record lm { channels = cs }) (ground arith) (same id ∙ h))
  | inr down ↦ rw (send_closed e k lm.channels down, deliver)
]

pub is_open-lt : (cs : List Channel) (id : ℕ) → is_open cs id ≡ true → id < length cs
is_open-lt [] id h = cc
is_open-lt (c ∷ cs) zero h = omega arith
is_open-lt (c ∷ cs) (suc id) h = omega (arith, is_open-lt cs id h)

-- Channels that are made later close none.
pub is_open-append :
    (cs cs' : List Channel) (id : ℕ) → is_open cs id ≡ true → is_open (cs ++ cs') id ≡ true
is_open-append [] cs' id h = cc
is_open-append (c ∷ cs) cs' zero h = h
is_open-append (c ∷ cs) cs' (suc id) h = is_open-append cs cs' id h

pub is_open-append_last :
    (cs : List Channel) (c : Channel) → is_open (cs ++ c ∷ []) (length cs) ≡ not c.closed
is_open-append_last [] c = refl
is_open-append_last (x ∷ cs) c = is_open-append_last cs c

pub is_open-close_channel :
    (cs : List Channel) (id k : ℕ)
    → is_open (close_channel id cs) k ≡ (if nat_eq id k then false else is_open cs k)
unfolding close_channel
is_open-close_channel cs id k = elim (Option-cases (get_elem? cs id)) [
  | inl gone ↦ ground (arith, gone)
  | inr (c, here) ↦ ground (arith, here, is_open-set cs id (record c { closed = true }) k here)
]
