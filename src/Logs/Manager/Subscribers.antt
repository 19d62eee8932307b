-- ===== src/Logs/Manager/Subscribers.antt =====
-- Subscriptions: the subscribers are always different channels that are open.
use ios_pilot.Base.{
  ℕ, ◌≡◌, refl, true, false, ◌||◌, List, [], ◌∷◌, ◌++◌, arith, nat_eq, length, Bool-cases, inl, inr,
}
use ios_pilot.Logs.Manager.{
  Channel, LogManager, subscribe, unsubscribe, remove_first, is_subscribed, close_channel,
}
use ios_pilot.Logs.Manager.Channels.{
  is_open, AllOpen, Distinct, AllOpen-mono, is_open-lt, is_open-append, is_open-append_last,
  is_open-close_channel,
}

-- The subscribers are different channels, and open ones.
pub record IsLive (lm : LogManager) : Type 0 where
  pub all_open : AllOpen lm.channels lm.subscribers
  pub distinct : Distinct lm.subscribers

-- The number of a new channel is not in use.
fresh_channel :
    (cs : List Channel) (ids : List ℕ) → AllOpen cs ids → is_subscribed (length cs) ids ≡ false
unfolding is_subscribed
fresh_channel cs [] h = refl
fresh_channel cs (id ∷ ids) h = ground (arith, is_open-lt cs id h.0, fresh_channel cs ids h.1)

AllOpen-append :
    (cs : List Channel) (ids : List ℕ) (id : ℕ)
    → AllOpen cs ids
    → is_open cs id ≡ true
    → AllOpen cs (ids ++ id ∷ [])
AllOpen-append cs [] id h up = (up, tt)
AllOpen-append cs (k ∷ ids) id h up = (h.0, AllOpen-append cs ids id h.1 up)

is_subscribed-append :
    (x id : ℕ) (ids : List ℕ)
    → is_subscribed x (ids ++ id ∷ []) ≡ (is_subscribed x ids || nat_eq id x)
unfolding is_subscribed
is_subscribed-append x id [] = ground arith
is_subscribed-append x id (k ∷ ids) = ground (arith, is_subscribed-append x id ids)

Distinct-append :
    (ids : List ℕ) (id : ℕ)
    → Distinct ids
    → is_subscribed id ids ≡ false
    → Distinct (ids ++ id ∷ [])
unfolding is_subscribed
Distinct-append [] id h new = (refl, tt)
Distinct-append (k ∷ ids) id h new = (
  ground (arith, is_subscribed-append k id ids, h.0, new),
  Distinct-append ids id h.1 (ground (arith, new)),
)

is_subscribed-remove_first :
    (x id : ℕ) (ids : List ℕ)
    → is_subscribed x ids ≡ false
    → is_subscribed x (remove_first id ids) ≡ false
unfolding is_subscribed remove_first
is_subscribed-remove_first x id [] h = refl
is_subscribed-remove_first x id (k ∷ ids) h = ground (arith, h, is_subscribed-remove_first x id ids)

Distinct-remove_first : (id : ℕ) (ids : List ℕ) → Distinct ids → Distinct (remove_first id ids)
unfolding remove_first
Distinct-remove_first id [] h = tt
Distinct-remove_first id (k ∷ ids) h = elim (Bool-cases (nat_eq k id)) [
  | inl same ↦ rw (same, remove_first) h.1
  | inr other ↦
      rw (other, remove_first)
        (is_subscribed-remove_first k id ids h.0, Distinct-remove_first id ids h.1)
]

-- Closing a channel leaves those open that are not removed.
AllOpen-close_other :
    (cs : List Channel) (id : ℕ) (ids : List ℕ)
    → AllOpen cs ids
    → is_subscribed id ids ≡ false
    → AllOpen (close_channel id cs) ids
unfolding is_subscribed
AllOpen-close_other cs id [] h out = tt
AllOpen-close_other cs id (k ∷ ids) h out = (
  ground (arith, h.0, out, is_open-close_channel cs id k),
  AllOpen-close_other cs id ids h.1 (ground (arith, out)),
)

AllOpen-close_channel :
    (cs : List Channel) (id : ℕ) (ids : List ℕ)
    → AllOpen cs ids
    → Distinct ids
    → AllOpen (close_channel id cs) (remove_first id ids)
unfolding remove_first
AllOpen-close_channel cs id [] h d = tt
AllOpen-close_channel cs id (k ∷ ids) h d = elim (Bool-cases (nat_eq k id)) [
  | inl same ↦
      let e : k ≡ id = ground arith in
      rw (same, remove_first) (AllOpen-close_other cs id ids h.1 (rw e at d.0))
  | inr other ↦
      rw (other, remove_first)
        (
          ground (arith, h.0, other, is_open-close_channel cs id k),
          AllOpen-close_channel cs id ids h.1 d.1,
        )
]

-- A subscription keeps the subscribers live.
pub subscribe-IsLive : (lm : LogManager) → IsLive lm → IsLive (subscribe lm).1
unfolding subscribe
subscribe-IsLive lm h = record {
  all_open =
      AllOpen-append _ lm.subscribers (length lm.channels)
        (AllOpen-mono lm.channels _ lm.subscribers (is_open-append lm.channels _) h.all_open)
        (is_open-append_last lm.channels _);
  distinct =
      Distinct-append lm.subscribers (length lm.channels) h.distinct
        (fresh_channel lm.channels lm.subscribers h.all_open);
}

-- An unsubscribe keeps what holds of the subscribers: the channels of those that are left are
-- open, and no channel is there twice.
pub unsubscribe-IsLive : (id : ℕ) (lm : LogManager) → IsLive lm → IsLive (unsubscribe id lm)
unfolding unsubscribe
unsubscribe-IsLive id lm h = elim (Bool-cases (is_subscribed id lm.subscribers)) [
  | inl here ↦
      rw (here, unsubscribe)
        (record {
          all_open = AllOpen-close_channel lm.channels id lm.subscribers h.all_open h.distinct;
          distinct = Distinct-remove_first id lm.subscribers h.distinct;
        })
  | inr gone ↦ rw (gone, unsubscribe) h
]
