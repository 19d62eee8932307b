-- ===== src/Logs/Manager/Delivery.antt =====
-- The delivery of an entry, and the order of steps that makes one panic.
use ios_pilot.Base.{ℕ, ◌≡◌, ◌∙◌, true, none, some, List, [], ◌∷◌, ◌++◌, arith, if◌then◌else◌}
use ios_pilot.Driver.{LogEntry}
use ios_pilot.Logs.Ring.History.{Represents, add-Represents}
use ios_pilot.Logs.Manager.{LogManager, unsubscribe, is_subscribed, deliver, fan_out, ingest}
use ios_pilot.Logs.Manager.Subscribers.{IsLive}
use ios_pilot.Logs.Manager.Channels.{
  queue, enqueue, queue-deliver, AllOpen-mono, is_open-close_channel, deliver_open, deliver_closed,
}

-- Whatever entry arrives, a manager with live subscribers and a buffer in order takes it without a
-- panic, and both are kept. The history grows by the entry. Each subscriber whose channel has room
-- gets it once, behind what it has not yet read; a full channel and any other one stay as they were.
pub ingest-IsLive :
    (e : LogEntry) (lm : LogManager) (hs : List LogEntry)
    → IsLive lm
    → Represents lm.buffer hs
    → (lm' : LogManager) × (ingest e lm ≡ some lm')
      × IsLive lm'
      × Represents lm'.buffer (hs ++ e ∷ [])
      × ((k : ℕ)
          → queue lm'.channels k ≡ (
              if is_subscribed k lm.subscribers
              then enqueue e (queue lm.channels k)
              else queue lm.channels k))
unfolding ingest fan_out
ingest-IsLive e lm hs h held =
    let (rb, added, held', _) = add-Represents e lm.buffer hs held in
    let lm₁ : LogManager = record lm { buffer = rb } in
    let (cs, sent, same) = deliver_open e lm.subscribers lm₁ h.all_open in
    (
      record lm { buffer = rb; channels = cs },
      rw (added, ingest) sent,
      record {
        all_open = AllOpen-mono lm.channels cs lm.subscribers (λ k up. same k ∙ up) h.all_open;
        distinct = h.distinct;
      },
      held',
      λ k.
          queue-deliver e lm.subscribers lm₁ (record lm { buffer = rb; channels = cs }) k h.all_open
            h.distinct sent,
    )

-- `fanOut` copies the subscribers and sends afterwards. If one of them unsubscribes in between, its
-- channel is closed, and the delivery to the copy panics, whatever the entry.
pub unsubscribe_during_fan_out :
    (e : LogEntry) (id : ℕ) (lm : LogManager)
    → IsLive lm
    → is_subscribed id lm.subscribers ≡ true
    → deliver e lm.subscribers (unsubscribe id lm) ≡ none
unfolding unsubscribe
unsubscribe_during_fan_out e id lm h sub =
    deliver_closed e lm.subscribers id (unsubscribe id lm) sub
      (ground (arith, sub, is_open-close_channel lm.channels id id))
